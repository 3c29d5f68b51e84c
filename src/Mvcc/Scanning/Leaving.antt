-- ===== src/Mvcc/Scanning/Leaving.antt =====
-- A forward scan over entries that hold versions: the move of the write cursor behind a key.
use gookv.Prelude.{
  ℕ, zero, suc, ◌≡◌, refl, sym, ap, ◌∙◌, Bool, true, false, List, [], ◌∷◌, drop, ◌++◌,
  if◌then◌else◌, arith, Ordering, All, Bool-cases, inl, inr,
}
use gookv.Prelude.Order.{compare_bytes, equal_bytes, eq_of_equal_bytes, compare_bytes_self}
use mathlib.Core.Path.{subst}
use gookv.TxnTypes.Timestamp.{ts_max}
use gookv.Mvcc.Key.{seek_bound}
use gookv.Mvcc.Snapshot.{less}
use gookv.Mvcc.Iterator.{next_entry}
use gookv.Mvcc.Versions.{Version, position, precedes, IsStorable, versions_from}
use gookv.Mvcc.Versions.Keys.{after_key, starts_with}
use gookv.Mvcc.Reader.Writes.{same_user_key}
use gookv.Mvcc.Scanning.At.{At, Scans, At-IsStorable, At-IsSorted, At-next, At-seek}
use gookv.Mvcc.Scanning.Moves.{versions_from_here, versions_from_there, key-behind, At-count}
use gookv.Mvcc.Scanner.{
  ScannerConfig, Scanner, next_write, count_seek, move_to_next_loop, stays_on,
  reposition_for_backward, move_write_cursor_to_next_user_key,
}

-- No byte string stands between one and the one with a zero byte behind it.
compare_bytes-successor :
    (k key : List ℕ)
    → less k (key ++ (0 ∷ [])) ≡ elim (compare_bytes k key) [ Ordering.gt ↦ false | _ ↦ true ]
unfolding compare_bytes
compare_bytes-successor [] [] = refl
compare_bytes-successor [] (y ∷ ys) = refl
compare_bytes-successor (x ∷ []) [] = ground arith
compare_bytes-successor (x ∷ z ∷ zs) [] = ground arith
compare_bytes-successor (x ∷ xs) (y ∷ ys) = ground (arith, compare_bytes-successor xs ys)

module _ {cfg : ScannerConfig} {all : List Version} (h : Scans cfg all) where
  stays_on-At :
      (vs : List Version) (s : Scanner) (key : List ℕ)
      → At cfg all vs s
      → stays_on s.write_cursor.ahead key ≡ starts_with vs key
  unfolding stays_on
  stays_on-At [] s key a = rw a.ahead
  stays_on-At (v ∷ vs) s key a = rw a.ahead (same_user_key v key)

  -- The seek behind the moves leads to the first larger key.
  versions_from-after :
      (v : Version) (vs : List Version) (key : List ℕ)
      → v.key ≡ key
      → All (λ w. position v w.key w.commit_ts ≡ Ordering.lt) vs
      → All IsStorable vs
      → versions_from vs (key ++ (0 ∷ [])) ts_max ≡ after_key vs key
  unfolding versions_from after_key
  versions_from-after v [] key k s st = refl
  versions_from-after v (w ∷ ws) key k s st =
      let f = st.0.commit_ts_fits in
      elim (Bool-cases (equal_bytes w.key key)) [
        | inl same ↦
            let p : precedes w (key ++ (0 ∷ [])) ts_max ≡ true =
              ground (arith, compare_bytes-successor w.key key) in
            rw (same, versions_from_there w ws (key ++ (0 ∷ [])) ts_max p, after_key)
              (versions_from-after v ws key k s.1 st.1)
        | inr other ↦
            let gt = key-behind v w key s.0 k other in
            let p : precedes w (key ++ (0 ∷ [])) ts_max ≡ false =
              ground (arith, compare_bytes-successor w.key key) in
            rw (other, versions_from_here w ws (key ++ (0 ∷ [])) ts_max p, after_key) refl
      ]

  move_to_next_loop-At :
      (n : ℕ) (v : Version) (vs : List Version) (s : Scanner) (key : List ℕ)
      → At cfg all (v ∷ vs) s
      → v.key ≡ key
      → At cfg all (after_key vs key) (move_to_next_loop n s key)
  unfolding move_to_next_loop after_key
  move_to_next_loop-At zero v vs s key a k =
      let so = At-IsSorted h (v ∷ vs) s a in
      let st = At-IsStorable h (v ∷ vs) s a in
      rw (← versions_from-after v vs key k so.0 st.1) (
        At-seek h v vs (count_seek s) (key ++ (0 ∷ [])) ts_max (At-count h (v ∷ vs) s a)
          (ground (arith, compare_bytes-successor v.key key, compare_bytes_self key)) (omega arith))
  move_to_next_loop-At (suc m) v [] s key a k =
      let moved = At-next h v [] s a in rw (stays_on-At [] (next_write s) key moved) moved
  move_to_next_loop-At (suc m) v (w ∷ ws) s key a k =
      let moved = At-next h v (w ∷ ws) s a in
      rw (stays_on-At (w ∷ ws) (next_write s) key moved)
        (elim (Bool-cases (equal_bytes w.key key)) [
          | inl same ↦ rw same (
              move_to_next_loop-At m w ws (next_write s) key moved
                (eq_of_equal_bytes w.key key same))
          | inr other ↦ rw other moved
        ])

  pub move_write_cursor_to_next_user_key-At :
      (v : Version) (vs : List Version) (s : Scanner) (key : List ℕ)
      → At cfg all (v ∷ vs) s
      → v.key ≡ key
      → At cfg all (after_key vs key) (move_write_cursor_to_next_user_key s key)
  unfolding move_write_cursor_to_next_user_key
  move_write_cursor_to_next_user_key-At v vs s key a k =
      subst
        (λ (b : Bool).
          At cfg all (after_key vs key)
            (if b then reposition_for_backward s key else move_to_next_loop seek_bound s key))
        (sym (ap (λ (c : ScannerConfig). c.desc) a.same_cfg ∙ h.forward))
        (move_to_next_loop-At seek_bound v vs s key a k)

  At-next_end : (s : Scanner) → At cfg all [] s → At cfg all [] (next_write s)
  unfolding next_entry
  At-next_end s a = record {
    same_cfg = a.same_cfg;
    no_lock = a.no_lock;
    started = a.started;
    defaults = a.defaults;
    entries = rw a.ahead a.entries;
    ahead = rw a.ahead refl;
    front = a.front;
    suffix = a.suffix;
  }

  At-drop :
      (us : List Version) (s : Scanner) → At cfg all us s → At cfg all (drop 1 us) (next_write s)
  At-drop [] s a = At-next_end s a
  At-drop (u ∷ us) s a = At-next h u us s a

  -- At a larger key, the move behind the versions of a key drops an entry.
  pub move_to_next-other :
      (us : List Version) (s : Scanner) (key : List ℕ)
      → At cfg all us s
      → starts_with (drop 1 us) key ≡ false
      → At cfg all (drop 1 us) (move_write_cursor_to_next_user_key s key)
  unfolding move_write_cursor_to_next_user_key move_to_next_loop
  move_to_next-other us s key a g =
      let moved = At-drop us s a in
      subst
        (λ (b : Bool).
          At cfg all (drop 1 us)
            (if b then reposition_for_backward s key else move_to_next_loop seek_bound s key))
        (sym (ap (λ (c : ScannerConfig). c.desc) a.same_cfg ∙ h.forward))
        (rw (stays_on-At (drop 1 us) (next_write s) key moved, g) moved)
