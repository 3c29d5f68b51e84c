-- ===== src/Mvcc/Scanning/Moves.antt =====
-- A forward scan over entries that hold versions: where the moves of the write cursor lead.
use gookv.Prelude.{
  ℕ, zero, suc, ◌<◌, ◌≡◌, refl, sym, ap, ◌∙◌, true, false, List, [], ◌∷◌, map, leb, if◌then◌else◌,
  arith, Ordering, All, Bool-cases, inl, inr,
}
use gookv.Prelude.Order.{
  compare_bytes, equal_bytes, eq_of_equal_bytes, compare_bytes_self, compare_bytes-flip,
}
use gookv.Mvcc.Key.{encode_key, seek_bound}
use gookv.Mvcc.Key.Laws.{decode-encode_key}
use gookv.Mvcc.Snapshot.{Entries}
use gookv.Mvcc.Versions.{Version, entry, position, precedes, IsStorable, versions_from}
use gookv.Mvcc.Versions.Keys.{starts_with}
use gookv.Mvcc.Scanning.At.{At, Scans, At-IsStorable, At-IsSorted, At-next, At-seek}
use gookv.Mvcc.Scanner.{
  ScannerConfig, Scanner, next_write, seek_write_cursor, count_seek, spot, spot_at, Spot, elsewhere,
  newer, visible, move_to_ts_loop, move_write_cursor_to_ts, advance_write_cursor,
}

abbrev spot_of : List Version → List ℕ → ℕ → Spot
spot_of [] key ts = elsewhere
spot_of (v ∷ vs) key ts =
    if equal_bytes v.key key then (if leb v.commit_ts ts then visible else newer) else elsewhere

pub versions_from_here :
    (v : Version) (vs : List Version) (key : List ℕ) (ts : ℕ)
    → precedes v key ts ≡ false
    → versions_from (v ∷ vs) key ts ≡ v ∷ vs
unfolding versions_from
versions_from_here v vs key ts p = rw p

pub versions_from_there :
    (v : Version) (vs : List Version) (key : List ℕ) (ts : ℕ)
    → precedes v key ts ≡ true
    → versions_from (v ∷ vs) key ts ≡ versions_from vs key ts
unfolding versions_from
versions_from_there v vs key ts p = rw p

-- Behind a version of the key stand only larger keys.
pub key-behind :
    (v w : Version) (key : List ℕ)
    → position v w.key w.commit_ts ≡ Ordering.lt
    → v.key ≡ key
    → equal_bytes w.key key ≡ false
    → compare_bytes w.key key ≡ Ordering.gt
key-behind v w key s k o = ground (arith, compare_bytes-flip v.key w.key)

spot-versions_from :
    (vs : List Version) (key : List ℕ) (ts : ℕ)
    → elim (spot_of (versions_from vs key ts) key ts) [ visible ↦ true | _ ↦ false ]
      ≡ starts_with (versions_from vs key ts) key
unfolding versions_from
spot-versions_from [] key ts = refl
spot-versions_from (v ∷ vs) key ts = elim (Bool-cases (precedes v key ts)) [
  | inl p ↦ rw (p, versions_from) (spot-versions_from vs key ts)
  | inr p ↦ rw (p, versions_from) (ground arith)
]

module _ {cfg : ScannerConfig} {all : List Version} (h : Scans cfg all) where
  spot_at-entries :
      (vs : List Version) (key : List ℕ)
      → All IsStorable vs
      → spot_at cfg (map entry vs) key ≡ spot_of vs key cfg.read_ts
  unfolding spot_at
  spot_at-entries [] key s = refl
  spot_at-entries (v ∷ vs) key s =
      rw (spot_at, decode-encode_key v.key v.commit_ts s.0.commit_ts_fits)

  spot-At :
      (vs : List Version) (s : Scanner) (key : List ℕ)
      → At cfg all vs s
      → spot s key ≡ spot_of vs key cfg.read_ts
  spot-At vs s key a =
      ap (λ (c : ScannerConfig). spot_at c s.write_cursor.ahead key) a.same_cfg
      ∙ ap (λ (es : Entries). spot_at cfg es key) a.ahead
      ∙ spot_at-entries vs key (At-IsStorable h vs s a)

  advance-next :
      (vs : List Version) (s : Scanner) → At cfg all vs s → advance_write_cursor s ≡ next_write s
  unfolding advance_write_cursor
  advance-next vs s a = rw (a.same_cfg, h.forward)

  -- The version of the key that is still too new precedes the position that the scan looks for.
  newer-precedes :
      (v : Version) (key : List ℕ) (ts : ℕ)
      → v.key ≡ key
      → ts < v.commit_ts
      → precedes v key ts ≡ true
  newer-precedes v key ts k n = ground (arith, compare_bytes_self key)

  pub At-count : (vs : List Version) (s : Scanner) → At cfg all vs s → At cfg all vs (count_seek s)
  At-count vs s a = record {
    same_cfg = a.same_cfg;
    no_lock = a.no_lock;
    started = a.started;
    defaults = a.defaults;
    entries = a.entries;
    ahead = a.ahead;
    front = a.front;
    suffix = a.suffix;
  }

  move_to_ts_loop-suc :
      (n : ℕ) (vs : List Version) (s : Scanner) (key : List ℕ)
      → At cfg all vs s
      → move_to_ts_loop (suc n) s key ≡ elim (spot (next_write s) key) [
        | elsewhere ↦ (next_write s, false)
        | visible ↦ (next_write s, true)
        | newer ↦ move_to_ts_loop n (next_write s) key
      ]
  unfolding move_to_ts_loop
  move_to_ts_loop-suc n vs s key a =
      ap
        (λ (t : Scanner). elim (spot t key) [
          | elsewhere ↦ (t, false)
          | visible ↦ (t, true)
          | newer ↦ move_to_ts_loop n t key
        ])
        (advance-next vs s a)

  move_to_ts_loop-zero :
      (vs : List Version) (s : Scanner) (key : List ℕ)
      → At cfg all vs s
      → let s' = seek_write_cursor (count_seek s) (encode_key key cfg.read_ts) in
        move_to_ts_loop zero s key ≡ (s', elim (spot s' key) [ visible ↦ true | _ ↦ false ])
  unfolding move_to_ts_loop
  move_to_ts_loop-zero vs s key a =
      ap
        (λ (c : ScannerConfig).
          let s' = seek_write_cursor (count_seek s) (encode_key key c.read_ts) in
          (s', elim (spot s' key) [ visible ↦ true | _ ↦ false ]))
        a.same_cfg

  -- From a version of the key that is too new, the moves lead to the first position at or before the
  -- timestamp.
  move_to_ts_loop-At :
      (n : ℕ) (v : Version) (vs : List Version) (s : Scanner) (key : List ℕ)
      → At cfg all (v ∷ vs) s
      → v.key ≡ key
      → cfg.read_ts < v.commit_ts
      → At cfg all (versions_from vs key cfg.read_ts) (move_to_ts_loop n s key).0
        × ((move_to_ts_loop n s key).1 ≡ starts_with (versions_from vs key cfg.read_ts) key)
  unfolding versions_from
  move_to_ts_loop-At zero v vs s key a k n =
      let p = newer-precedes v key cfg.read_ts k n in
      let moved =
        At-seek h v vs (count_seek s) key cfg.read_ts (At-count (v ∷ vs) s a) p h.read_ts_fits in
      rw (move_to_ts_loop-zero (v ∷ vs) s key a) (
        moved,
        ap (λ (x : Spot). elim x [ visible ↦ true | _ ↦ false ]) (spot-At _ _ key moved)
            ∙ spot-versions_from vs key cfg.read_ts,
      )
  move_to_ts_loop-At (suc m) v [] s key a k n =
      let moved = At-next h v [] s a in
      rw (move_to_ts_loop-suc m (v ∷ []) s key a, spot-At [] (next_write s) key moved) (moved, refl)
  move_to_ts_loop-At (suc m) v (w ∷ ws) s key a k n =
      let moved = At-next h v (w ∷ ws) s a in
      rw (move_to_ts_loop-suc m (v ∷ w ∷ ws) s key a, spot-At (w ∷ ws) (next_write s) key moved)
        (elim (Bool-cases (equal_bytes w.key key)) [
          | inl same ↦ elim (Bool-cases (leb w.commit_ts cfg.read_ts)) [
            | inl old ↦
                rw (same, old, versions_from_here w ws key cfg.read_ts (ground arith))
                  (moved, sym same)
            | inr new ↦
                rw (same, new, versions_from_there w ws key cfg.read_ts (ground arith))
                  (move_to_ts_loop-At m w ws (next_write s) key moved
                    (eq_of_equal_bytes w.key key same) (ground arith))
          ]
          | inr other ↦
              let gt = key-behind v w key (At-IsSorted h (v ∷ w ∷ ws) s a).0.0 k other in
              rw (other, versions_from_here w ws key cfg.read_ts (ground (arith, gt)))
                (moved, sym other)
        ])

  pub move_write_cursor_to_ts-At :
      (v : Version) (vs : List Version) (s : Scanner) (key : List ℕ)
      → At cfg all (v ∷ vs) s
      → v.key ≡ key
      → At cfg all (versions_from (v ∷ vs) key cfg.read_ts) (move_write_cursor_to_ts s key).0
        × ((move_write_cursor_to_ts s key).1
            ≡ starts_with (versions_from (v ∷ vs) key cfg.read_ts) key)
  unfolding move_write_cursor_to_ts
  move_write_cursor_to_ts-At v vs s key a k =
      let same : equal_bytes v.key key ≡ true = ground (arith, compare_bytes_self key) in
      rw (move_write_cursor_to_ts, spot-At (v ∷ vs) s key a)
        (elim (Bool-cases (leb v.commit_ts cfg.read_ts)) [
          | inl old ↦
              rw
                (
                  same,
                  old,
                  versions_from_here v vs key cfg.read_ts (ground (arith, compare_bytes_self key)),
                )
                (a, sym same)
          | inr new ↦
              rw
                (
                  same,
                  new,
                  versions_from_there v vs key cfg.read_ts
                      (newer-precedes v key cfg.read_ts k (ground arith)),
                )
                (move_to_ts_loop-At seek_bound v vs s key a k (ground arith))
        ])
