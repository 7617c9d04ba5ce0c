-- ===== src/Indexer/Reader.antt =====
-- src/services/Soroban/SorobanEventReader.ts. The RPC server is a parameter, as it is in the source:
-- what it answers to a request, `none` where it throws. JSON values are kept as their texts.
use audio_block_backend.Base.{ℕ, Option, none, some, List, [], ◌∷◌, map, String, or_text, or_else}

-- An event as the server gives it: `none` for a field that is not of the type that is tested for;
-- `native` is what the SDK makes of topic and value, `none` where that throws.
pub record RawEvent : Type 0 where
  pub id : Option String
  pub ledger : Option ℕ
  pub tx_hash : Option String
  pub contract_id : Option String
  pub native : Option (List String × String)

pub record ContractEvent : Type 0 where
  pub id : String
  pub ledger : ℕ
  pub tx_hash : String
  pub contract_id : Option String
  pub topic : List String
  pub value : String

pub record EventsPage : Type 0 where
  pub events : List ContractEvent
  pub cursor : String
  pub latest_ledger : ℕ

pub data Request : Type 0 where
  from_cursor : List String → String → ℕ → Request
  from_ledger : List String → ℕ → Option ℕ → ℕ → Request

pub record Response : Type 0 where
  pub events : List RawEvent
  pub cursor : Option String
  pub latest_ledger : ℕ

pub record EventReaderServer : Type 0 where
  pub get_events : Request → Option Response
  pub get_latest_ledger : Option ℕ

unfoldable pub normalize_event : RawEvent → Option ContractEvent
normalize_event e = elim e.id [
  | none ↦ none
  | some id ↦ elim e.ledger [
    | none ↦ none
    | some ledger ↦ elim e.native [
      | none ↦ none
      | some (topic, value) ↦ some (record {
        id = id;
        ledger = ledger;
        tx_hash = or_else e.tx_hash "";
        contract_id = e.contract_id;
        topic = topic;
        value = value;
      })
    ]
  ]
]

unfoldable pub normalized : List RawEvent → List ContractEvent
normalized [] = []
normalized (e ∷ es) =
    let rest = normalized es in elim (normalize_event e) [ none ↦ rest | some ev ↦ ev ∷ rest ]

-- An event that names no contract gets the contract, if exactly one was asked for.
unfoldable pub keep_contract : List String → ContractEvent → ContractEvent
keep_contract (c ∷ []) ev = elim (or_text ev.contract_id "") [
  | String.[] ↦ record ev { contract_id = some c }
  | _ ↦ ev
]
keep_contract _ ev = ev

unfoldable pub request_for : List String → Option String → Option ℕ → Option ℕ → Option ℕ → Request
request_for contract_ids cursor start_ledger end_ledger limit = elim (or_text cursor "") [
  | String.[] ↦ from_ledger contract_ids (or_else start_ledger 1) end_ledger (or_else limit 200)
  | _ ↦ from_cursor contract_ids (or_text cursor "") (or_else limit 200)
]

unfoldable pub page_of : List String → Response → EventsPage
page_of contract_ids resp = record {
  events = map (keep_contract contract_ids) (normalized resp.events);
  cursor = or_else resp.cursor "";
  latest_ledger = resp.latest_ledger;
}

unfoldable pub fetch_events :
    EventReaderServer
    → List String
    → Option String
    → Option ℕ
    → Option ℕ
    → Option ℕ
    → Option EventsPage
fetch_events server contract_ids cursor start_ledger end_ledger limit =
    elim (server.get_events (request_for contract_ids cursor start_ledger end_ledger limit)) [
      | none ↦ none
      | some resp ↦ some (page_of contract_ids resp)
    ]
