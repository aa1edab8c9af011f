-- ===== src/Room/Delta.antt =====
-- internal/room/delta.go and snapshot.go: what a reader of the room is given.
use coderoom.Prelude.Dict
use coderoom.Prelude.Dict.{Dict}
use coderoom.Prelude.Results.{Result, ok, err}
use coderoom.Prelude.Sort.{sort_texts}
use coderoom.Prelude.{
  ℕ, zero, suc, ◌-◌, String, Bool, true, not, ◌&&◌, ◌||◌, Option, none, some, List, [], ◌∷◌, ◌++◌,
  ◌==◌, string_eq, nat_eq, if◌then◌else◌, get_elem?, is_some, ltb,
}
use coderoom.Room.Records.{Record, Room, OpenStream}
use coderoom.Room.Projection.{unique_record_indices}

pub record IndexedRecord : Type 0 where
  pub index : ℕ
  pub rec' : Record

pub record DeltaMeta : Type 0 where
  pub members : List String
  pub departed : Dict String Bool
  pub open_streams : List OpenStream

pub record Delta : Type 0 where
  pub room_id : String
  pub version : ℕ
  pub meta : DeltaMeta
  pub record_updates : List IndexedRecord

pub data DeltaError : Type 0 where
  resync_required : DeltaError

pub record Snapshot : Type 0 where
  pub room_id : String
  pub version : ℕ
  pub members : List String
  pub departed : Dict String Bool
  pub records : List Record
  pub open_streams : List OpenStream

-- The open streams in the order of their ids.
cloned_open_streams : List String → Dict String OpenStream → List OpenStream
cloned_open_streams [] m = []
cloned_open_streams (id ∷ ids) m =
    let rest = cloned_open_streams ids m in
    elim (Dict.get id m) [ none ↦ rest | some slot ↦ slot ∷ rest ]

abbrev open_streams_of : Room → List OpenStream
open_streams_of r = cloned_open_streams (sort_texts (Dict.keys r.streaming)) r.streaming

unfoldable pub snapshot : Room → Snapshot
unfolding cloned_open_streams
snapshot r = record {
  room_id = r.id;
  version = r.version;
  members = sort_texts r.members;
  departed = r.departed;
  records = r.records;
  open_streams = open_streams_of r;
}

-- The loop of `canBuildDeltaLocked` over the `n` versions after `v`.
unfoldable pub can_build : Dict ℕ (List ℕ) → ℕ → ℕ → Bool
can_build dirty v zero = true
can_build dirty v (suc n) = is_some (Dict.get (suc v) dirty) && can_build dirty (suc v) n

abbrev pub or_nil : Option (List ℕ) → List ℕ
or_nil none = []
or_nil (some idxs) = idxs

-- The loop of `deltaRecordIndicesLocked`.
unfoldable pub collect_dirty : Dict ℕ (List ℕ) → ℕ → ℕ → List ℕ
collect_dirty dirty v zero = []
collect_dirty dirty v (suc n) = or_nil (Dict.get (suc v) dirty) ++ collect_dirty dirty (suc v) n

unfoldable pub delta_record_indices : ℕ → Room → List ℕ
delta_record_indices from r = unique_record_indices (collect_dirty r.dirty from (r.version - from))

-- `r.records[idx]` is in range for every dirty index.
unfoldable pub indexed_records : List ℕ → Room → List IndexedRecord
indexed_records [] r = []
indexed_records (i ∷ is) r =
    let rest = indexed_records is r in
    elim (get_elem? r.records i) [ none ↦ rest | some x ↦ record { index = i; rec' = x } ∷ rest ]

abbrev delta_meta : Room → DeltaMeta
delta_meta r = record {
  members = sort_texts r.members;
  departed = r.departed;
  open_streams = open_streams_of r;
}

unfoldable pub delta : ℕ → Room → Result DeltaError Delta
unfolding cloned_open_streams
delta from r =
    if from == 0 || (ltb r.version from || not (can_build r.dirty from (r.version - from)))
    then err resync_required
    else ok (record {
      room_id = r.id;
      version = r.version;
      meta = delta_meta r;
      record_updates =
          if from == r.version then [] else indexed_records (delta_record_indices from r) r;
    })
