-- ===== src/Indexer/Worker/Poll/Trail.antt =====
-- What a cycle of IndexerWorker.pollOnce reads from the server, and the counts that this gives,
-- described apart from the worker: the pages along the cursors.
use audio_block_backend.Indexer.Guard.{ReorgGuard, get_overlap_start}
use audio_block_backend.Indexer.Events.{InsertIndexedEvent}
use audio_block_backend.Indexer.Reader.{ContractEvent, EventsPage, EventReaderServer, fetch_events}
use audio_block_backend.Indexer.Worker.{IndexerContract, Env}
use audio_block_backend.Indexer.Worker.Persist.Buffer.{unreadable}
use audio_block_backend.Indexer.Worker.Poll.{Tally, PollOutcome, contains, fetch_page}
use audio_block_backend.Base.{
  ℕ, suc, ◌+◌, ◌≡◌, Bool, true, false, ◌||◌, Option, none, some, List, [], ◌∷◌, String,
  if◌then◌else◌, non_empty, length,
}

abbrev pub events_in : List EventsPage → ℕ
events_in [] = 0
events_in (p ∷ ps) = length p.events + events_in ps

-- The events that the decoder does not read.
abbrev pub unread_in : (ContractEvent → Option InsertIndexedEvent) → List EventsPage → ℕ
unread_in decode [] = 0
unread_in decode (p ∷ ps) = unreadable decode p.events + unread_in decode ps

abbrev pub or_cursor : Option String → Option String → Option String
or_cursor none c = c
or_cursor (some d) c = some d

-- The last cursor of the pages, or the one before them.
abbrev pub cursor_after : Option String → List EventsPage → Option String
cursor_after c [] = c
cursor_after c (p ∷ ps) = cursor_after (or_cursor (non_empty p.cursor) c) ps

-- The second tally is the first with the events of the pages.
pub record Adds (decode : ContractEvent → Option InsertIndexedEvent) (pages : List EventsPage)
    (t t' : Tally) : Type 0 where
  pub fetched : t'.fetched ≡ t.fetched + events_in pages
  pub skipped : t'.skipped ≡ t.skipped + unread_in decode pages
  pub written :
      t'.processed + t'.errors + unread_in decode pages ≡ t.processed + t.errors + events_in pages
  pub cursor : t'.cursor ≡ cursor_after t.cursor pages

-- What an outcome tells: the events of the pages, those that were skipped, and the others as written
-- or as errors, with one error more where the cycle failed.
pub record Tells (decode : ContractEvent → Option InsertIndexedEvent) (pages : List EventsPage)
    (failed : Bool) (latest : ℕ) (o : PollOutcome) : Type 0 where
  pub fetched : o.events_fetched ≡ events_in pages
  pub skipped : o.events_skipped ≡ unread_in decode pages
  pub accounted :
      o.events_processed + o.events_skipped + o.errors
      ≡ o.events_fetched + (if failed then 1 else 0)
  pub cursor : o.cursor ≡ cursor_after none pages
  pub latest_ledger : o.latest_ledger ≡ latest

module _ (env : Env) (server : EventReaderServer) (contract : IndexerContract) where
  -- The pages that are read from a cursor on, where `seen` have been followed, and whether the
  -- server or the save of the cursor throws in the end.
  pub data Follows : ℕ → Option String → List String → List EventsPage → Bool → Type 0 where
    no_cursor : {n : ℕ} {seen : List String} → Follows n none seen [] false
    stops :
        {n : ℕ} {c : String} {seen : List String}
        → (env.stopped n || contains seen c) ≡ true
        → Follows n (some c) seen [] false
    throws_at :
        {n : ℕ} {c : String} {seen : List String}
        → (env.stopped n || contains seen c) ≡ false
        → fetch_page env server contract c ≡ none
        → Follows n (some c) seen [] true
    save_fails :
        {n : ℕ} {c : String} {seen : List String} {page : EventsPage}
        → (env.stopped n || contains seen c) ≡ false
        → fetch_page env server contract c ≡ some page
        → env.cursor_saved (suc n) ≡ false
        → Follows n (some c) seen [] true
    reads :
        {n : ℕ} {c : String} {seen : List String} {page : EventsPage} {pages : List EventsPage}
        {failed : Bool}
        → (env.stopped n || contains seen c) ≡ false
        → fetch_page env server contract c ≡ some page
        → Follows (suc n) (non_empty page.cursor) (c ∷ seen) pages failed
        → Follows n (some c) seen (page ∷ pages) failed

  abbrev pub first_fetch : ℕ → ℕ → Option EventsPage
  first_fetch start latest =
      fetch_events server (contract.contract_id ∷ []) none (some start) (some latest)
        (some env.page_size)

  -- The pages whose events are in the outcome of a cycle, whether it failed, and the ledger that it
  -- tells. Where the drain fails, the pages that it has read are not in the outcome.
  pub data Cycle (guard : ReorgGuard) : List EventsPage → Bool → ℕ → Type 0 where
    no_tip : server.get_latest_ledger ≡ none → Cycle guard [] true 0
    nothing_new :
        {latest : ℕ}
        → server.get_latest_ledger ≡ some latest
        → get_overlap_start latest guard ≡ none
        → Cycle guard [] false latest
    first_throws :
        {start latest : ℕ}
        → server.get_latest_ledger ≡ some latest
        → get_overlap_start latest guard ≡ some start
        → first_fetch start latest ≡ none
        → Cycle guard [] true 0
    first_save_fails :
        {start latest : ℕ} {page : EventsPage}
        → server.get_latest_ledger ≡ some latest
        → get_overlap_start latest guard ≡ some start
        → first_fetch start latest ≡ some page
        → env.cursor_saved 0 ≡ false
        → Cycle guard [] true 0
    drained :
        {start latest : ℕ} {page : EventsPage} {pages : List EventsPage}
        → server.get_latest_ledger ≡ some latest
        → get_overlap_start latest guard ≡ some start
        → first_fetch start latest ≡ some page
        → Follows 0 (non_empty page.cursor) [] pages false
        → Cycle guard (page ∷ pages) false latest
    drain_throws :
        {start latest : ℕ} {page : EventsPage} {pages : List EventsPage}
        → server.get_latest_ledger ≡ some latest
        → get_overlap_start latest guard ≡ some start
        → first_fetch start latest ≡ some page
        → Follows 0 (non_empty page.cursor) [] pages true
        → Cycle guard (page ∷ []) true 0
