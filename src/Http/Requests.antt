-- ===== src/Http/Requests.antt =====
-- src/main.rs: any number of requests, one after the other, each under its own configuration and moment.
-- The service runs each in a thread; here each handler's reading and change of the store are one step.
use glasir_control.Prelude.{sym, subst, List, [], ◌∷◌, nat_eq, Bool_eq, list_eq, pair_eq}
use glasir_control.Proxy.{Request}
use glasir_control.Policy.{Store}
use glasir_control.Policy.History.{creation, approval, AllReviewed, Step-AllReviewed}
use glasir_control.Sync.Mutate.{change}
use glasir_control.Http.{Config, Moment, Call}
use glasir_control.Http.Provider.{reviewed}
use glasir_control.Http.Guards.{Outside, identity_of, call_of}
use glasir_control.Http.Handler.{handle}
use glasir_control.Http.Changes.{
  CallChange, kept, created, agreed, Change, untouched, by_caller, by_webhook, handle-Change,
}

-- A request as it arrives. The configuration may change in between, as by a restart.
pub record Arrival : Type 0 where
  pub cfg : Config
  pub moment : Moment
  pub req : Request

-- The store behind the requests.
unfoldable pub serve : Outside → List Arrival → Store → Store
unfolding handle
serve o [] s = s
serve o (a ∷ more) s = serve o more (handle o a.cfg a.moment a.req s).store

CallChange-AllReviewed :
    (c : Call) (s s' : Store) → AllReviewed s → CallChange c s s' → AllReviewed s'
CallChange-AllReviewed c s s' reviewed (kept same) = subst AllReviewed (sym same) reviewed
CallChange-AllReviewed c s s' reviewed (created user scope id text w a v made) =
    Step-AllReviewed s s' reviewed (creation id user text scope c.moment.now made)
CallChange-AllReviewed c s s' reviewed (agreed user scope id w a v made) =
    Step-AllReviewed s s' reviewed (approval id user scope c.moment.now made)

Change-AllReviewed :
    (cfg : Config) (m : Moment) (req : Request) (s s' : Store)
    → AllReviewed s
    → Change cfg m req s s'
    → AllReviewed s'
Change-AllReviewed cfg m req s s' reviewed (untouched same) = subst AllReviewed (sym same) reviewed
Change-AllReviewed cfg m req s s' reviewed (by_caller change) =
    CallChange-AllReviewed (call_of cfg m req (identity_of cfg m req)) s s' reviewed change
Change-AllReviewed cfg m req s s' reviewed (by_webhook action text signed written_text same) =
    subst AllReviewed (sym same) reviewed

-- Four eyes, whatever arrives: if each approved proposal of the store has an author and another approver,
-- this holds behind any sequence of requests, webhooks among them.
pub serve-AllReviewed :
    (o : Outside) (arrivals : List Arrival) (s : Store)
    → AllReviewed s
    → AllReviewed (serve o arrivals s)
unfolding serve
serve-AllReviewed o [] s reviewed = reviewed
serve-AllReviewed o (a ∷ more) s reviewed =
    serve-AllReviewed o more (handle o a.cfg a.moment a.req s).store (
      Change-AllReviewed a.cfg a.moment a.req s (handle o a.cfg a.moment a.req s).store reviewed
        (handle-Change o a.cfg a.moment a.req s))
