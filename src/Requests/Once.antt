-- ===== src/Requests/Once.antt =====
-- A collection that is posted once, and the requests that come later
-- (apps/api/src/modules/finance/infrastructure/prisma-finance.repository.ts).
use jimpitan.Base.{String, Option, none, some, List, ◌≡◌, refl, sym, subst}
use jimpitan.Finance.Schema.{
  TransactionRow, AuthPrincipal, FinanceRequestMeta, PostValidatedCollectionCommand,
}
use jimpitan.Finance.Platform.{Db, Platform}
use jimpitan.Finance.Monad.{ok}
use jimpitan.Finance.Tables.{from_collection}
use jimpitan.Finance.Books.{SameBooks}
use jimpitan.Finance.Collections.{SourceCollectionPostingResult}
use jimpitan.Finance.CollectionPosting.{post_validated_collection}
use jimpitan.Finance.CollectionBooks.{post_validated_collection_once}
use jimpitan.Finance.CollectionPosted.{IsPosted, IsPosted-Kept, IsPosted-find_first}
use jimpitan.Finance.CollectionOnce.{post_validated_collection-Posted}
use jimpitan.Requests.{Call, serve_all}
use jimpitan.Requests.Traces.{serve_all-transactions}

module _ (P : Platform) (rt_id : String) where
  posted_is_replayed :
      (command : PostValidatedCollectionCommand) (actor : AuthPrincipal) (meta : FinanceRequestMeta)
      (s : Db)
      → IsPosted rt_id command.collection_id s.transactions
      → SameBooks s (post_validated_collection P rt_id command actor meta s).1
  posted_is_replayed command actor meta s posted =
      by_row (P.find_first (from_collection rt_id command.collection_id) s.transactions) refl
    where
      by_row :
          (o : Option TransactionRow)
          → P.find_first (from_collection rt_id command.collection_id) s.transactions ≡ o
          → SameBooks s (post_validated_collection P rt_id command actor meta s).1
      by_row none e =
          absurd (IsPosted-find_first P rt_id command.collection_id s.transactions posted e)
      by_row (some t) e = post_validated_collection_once P rt_id command actor meta s t e

  -- A collection is posted at most once: after a request to post it that is answered, and any sequence
  -- of requests, each request of the tenant to post it again, by whomever and with whatever key, writes
  -- no table but the audit log.
  pub posted_collection_once :
      (first again : PostValidatedCollectionCommand) (actor other : AuthPrincipal)
      (meta later_meta : FinanceRequestMeta) (s : Db) (a : SourceCollectionPostingResult)
      (calls : List Call)
      → (post_validated_collection P rt_id first actor meta s).0 ≡ ok a
      → again.collection_id ≡ first.collection_id
      → let later = serve_all P calls (post_validated_collection P rt_id first actor meta s).1 in
        SameBooks later (post_validated_collection P rt_id again other later_meta later).1
  posted_collection_once first again actor other meta later_meta s a calls e same =
      let t = (post_validated_collection P rt_id first actor meta s).1 in
      let later = serve_all P calls t in
      let posted = post_validated_collection-Posted P rt_id first actor meta s a e in
      let kept =
        IsPosted-Kept rt_id first.collection_id t.transactions later.transactions
          (serve_all-transactions P calls t) posted in
      posted_is_replayed again other later_meta later
        (subst (λ id. IsPosted rt_id id later.transactions) (sym same) kept)
