-- ===== src/Indexer/Events.antt =====
-- src/services/IndexedEventService.ts over the table of src/entities/IndexedEvent.ts. The table is
-- the list of its rows in the order of insertion; JSON payloads are kept as their texts.
pub mod Dedup
use audio_block_backend.Base.{
  ℕ, ◌+◌, ◌-◌, Bool, true, false, ◌&&◌, Option, none, some, List, [], ◌∷◌, ◌++◌, String, ◌==◌,
  if◌then◌else◌, str_eq, ◌+s◌, or_text, or_else, decimal,
}

pub record InsertIndexedEvent : Type 0 where
  pub network : Option String
  pub contract_id : Option String
  pub contract_type : Option String
  pub event_type : String
  pub event_id : Option String
  pub address : Option String
  pub tx_hash : Option String
  pub ledger : Option ℕ
  pub payload : Option String
  pub old_data : Option String

pub record IndexedEvent : Type 0 where
  pub ingest_seq : ℕ
  pub network : String
  pub contract_id : Option String
  pub contract_type : Option String
  pub event_type : String
  pub event_id : String
  pub address : Option String
  pub tx_hash : Option String
  pub ledger : Option ℕ
  pub payload : String
  pub indexed_at : ℕ

-- The table, the database's sequence for `ingestSeq`, and the number of saves asked for so far.
pub record Store : Type 0 where
  pub rows : List IndexedEvent
  pub next_seq : ℕ
  pub saves : ℕ

-- What the database makes of one save: it stores the row; it refuses it since another writer has
-- just stored the same event; it refuses it as a duplicate that a second look does not find; or it
-- fails otherwise.
pub data Save : Type 0 where
  saved raced vanished failed : Save

-- The condition of `findOne`: an id or ledger that is undefined is not compared.
pub record Where : Type 0 where
  pub network : String
  pub event_id : String
  pub contract_id : Option String
  pub ledger : Option ℕ

unfoldable pub build_where : String → String → Option String → Option ℕ → Where
build_where network event_id contract_id ledger = record {
  network = network;
  event_id = event_id;
  contract_id = contract_id;
  ledger = ledger;
}

abbrev pub text_fits : Option String → Option String → Bool
text_fits none _ = true
text_fits (some s) none = false
text_fits (some s) (some t) = str_eq s t

abbrev pub ledger_fits : Option ℕ → Option ℕ → Bool
ledger_fits none _ = true
ledger_fits (some n) none = false
ledger_fits (some n) (some m) = n == m

unfoldable pub fits : Where → IndexedEvent → Bool
fits w r =
    str_eq w.network r.network
    && str_eq w.event_id r.event_id
    && text_fits w.contract_id r.contract_id
    && ledger_fits w.ledger r.ledger

unfoldable pub find_one : Where → List IndexedEvent → Option IndexedEvent
find_one w [] = none
find_one w (r ∷ rows) = if fits w r then some r else find_one w rows

unfoldable pub network_of : InsertIndexedEvent → String
network_of dto = or_text dto.network "stellar-testnet"

unfoldable pub event_id_of : InsertIndexedEvent → String
unfolding decimal
event_id_of dto =
    or_text dto.event_id (or_text dto.tx_hash "event" +s "-" +s decimal (or_else dto.ledger 0))

unfoldable pub where_of : InsertIndexedEvent → Where
unfolding build_where
where_of dto = build_where (network_of dto) (event_id_of dto) dto.contract_id dto.ledger

unfoldable pub event_of : InsertIndexedEvent → ℕ → ℕ → IndexedEvent
event_of dto seq now = record {
  ingest_seq = seq;
  network = network_of dto;
  contract_id = dto.contract_id;
  contract_type = dto.contract_type;
  event_type = dto.event_type;
  event_id = event_id_of dto;
  address = dto.address;
  tx_hash = dto.tx_hash;
  ledger = dto.ledger;
  payload = or_else dto.payload (or_else dto.old_data "{}");
  indexed_at = now;
}

unfoldable pub append_row : InsertIndexedEvent → ℕ → Store → Store
append_row dto now st = record {
  rows = st.rows ++ event_of dto st.next_seq now ∷ [];
  next_seq = st.next_seq + 1;
  saves = st.saves + 1;
}

-- The row that the call returns, or `none` where it throws.
unfoldable pub insert_new : Save → InsertIndexedEvent → ℕ → Store → Option IndexedEvent × Store
unfolding append_row
insert_new saved dto now st = (some (event_of dto st.next_seq now), append_row dto now st)
insert_new raced dto now st =
    let st' = append_row dto now st in (find_one (where_of dto) st'.rows, st')
insert_new vanished dto now st = (none, record st { saves = st.saves + 1 })
insert_new failed dto now st = (none, record st { saves = st.saves + 1 })

-- `db` says what becomes of each save; `now` is the time of the call.
unfoldable pub upsert_event :
    (ℕ → Save) → ℕ → InsertIndexedEvent → Store → Option IndexedEvent × Store
unfolding insert_new
upsert_event db now dto st = elim (find_one (where_of dto) st.rows) [
  | some existing ↦ (some existing, st)
  | none ↦ insert_new (db st.saves) dto now st
]

unfoldable pub get_events_by_tx_hash : String → List IndexedEvent → List IndexedEvent
get_events_by_tx_hash tx [] = []
get_events_by_tx_hash tx (r ∷ rows) =
    let rest = get_events_by_tx_hash tx rows in
    elim r.tx_hash [ none ↦ rest | some t ↦ if str_eq t tx then r ∷ rest else rest ]
