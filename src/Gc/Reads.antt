-- ===== src/Gc/Reads.antt =====
-- `GC` and the readers.
use mathlib.Core.Path.{subst}
use gookv.Prelude.{true, ℕ, ◌≤◌, ◌≡◌, sym, ap, ◌∙◌, List, ◌++◌, All, ok}
use gookv.Codec.Number.{IsU64}
use gookv.TxnTypes.Timestamp.{ts_max}
use gookv.Mvcc.Snapshot.{Snapshot}
use gookv.Mvcc.Txn.{new_mvcc_txn}
use gookv.Mvcc.Txn.Apply.{apply_all}
use gookv.Mvcc.Versions.{Version, versions_from}
use gookv.Mvcc.Versions.Next.{versions_from-IsSorted}
use gookv.Mvcc.Versions.Keys.{reader_at}
use gookv.Mvcc.Scanning.At.{versions_from-suffix}
use gookv.Mvcc.Reader.{get_write}
use gookv.Mvcc.Holds.{Holds, get_write_lem}
use gookv.Gc.{Collected, gc}
use gookv.Gc.Run.{IsPositive, rewound, gc-rewound}
use gookv.Gc.Kept.{kept, kept-reads, reader-append}
use gookv.Gc.Applied.{rewound-Holds}

-- What `GC` collects at a key, and the store that it makes of it.
pub record Collects (s : Snapshot) (key : List ℕ) (safe_point : ℕ) (c : Collected) : Type 0 where
  pub left : List Version
  pub runs : gc (new_mvcc_txn 0) s key safe_point ≡ ok c
  pub holds : Holds (apply_all s c.0.modifies) left

-- On a well-formed store without versions at timestamp 0, `GC` of a key ends without an error; the
-- store with its modifications applied is well-formed, and at every timestamp of 64 bits at or above
-- the safe point `GetWrite` finds there what it found before, at every key.
pub gc_keeps_reads :
    (s : Snapshot) (vs : List Version) (key : List ℕ) (safe_point : ℕ) (k : List ℕ) (ts : ℕ)
    → Holds s vs
    → All IsPositive vs
    → IsU64 ts
    → safe_point ≤ ts
    → (c : Collected) × Collects s key safe_point c
      × (get_write (apply_all s c.0.modifies) k ts ≡ get_write s k ts)
unfolding new_mvcc_txn apply_all
gc_keeps_reads s vs key safe_point k ts h p f le =
    let from = versions_from vs key ts_max in
    let start : Collected =
      (new_mvcc_txn 0, record { found_versions = 0; deleted_versions = 0; is_completed = true }) in
    let (front, e) = versions_from-suffix vs key ts_max in
    let c = rewound key safe_point start from in
    let left = front ++ kept key safe_point from in
    let holds : Holds (apply_all s c.0.modifies) left =
      rewound-Holds s key safe_point start front from (subst (Holds s) e h) in
    let same =
      reader-append front (kept key safe_point from) from ts k
        (kept-reads from key k safe_point ts (versions_from-IsSorted vs key ts_max h.sorted) le) in
    (
      c,
      record { left = left; runs = gc-rewound h p key safe_point (new_mvcc_txn 0); holds = holds },
      get_write_lem holds k ts f
          ∙ ap ok (same ∙ ap (λ (l : List Version). reader_at l ts k) (sym e))
          ∙ sym (get_write_lem h k ts f),
    )
