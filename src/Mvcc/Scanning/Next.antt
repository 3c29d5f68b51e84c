-- ===== src/Mvcc/Scanning/Next.antt =====
-- `handleWrite` of a forward scan over entries that hold versions.
use gookv.Prelude.{
  All-append_right, ℕ, suc, ◌≤◌, ◌≡◌, refl, sym, ap, ◌∙◌, Bool, true, false, List, [], ◌∷◌, drop,
  length, if◌then◌else◌, arith, All, Bool-cases, inl, inr, length-map, length-append,
}
use gookv.Prelude.Order.{equal_bytes, eq_of_equal_bytes, compare_bytes_self}
use gookv.Mvcc.Key.{encode_key}
use gookv.Mvcc.Versions.{Version, entry, precedes, IsSorted, versions_from}
use gookv.Mvcc.Versions.Next.{Reaches, Reaches-tail}
use gookv.Mvcc.Versions.Keys.{
  after_key, starts_with, AllGreater, after_key-AllGreater, after_key-first,
}
use gookv.Mvcc.Versions.Visible.{visible_versions}
use gookv.Mvcc.Reader.Writes.{NamesNoChange}
use gookv.Mvcc.Scanning.At.{At, Scans, At-IsSorted}
use gookv.Mvcc.Scanning.Moves.{move_write_cursor_to_ts-At}
use gookv.Mvcc.Scanning.Leaving.{move_to_next-other}
use gookv.Mvcc.Scanning.Records.{IsAnswered, handle_write_loop-At}
use gookv.Mvcc.Scanner.{
  ScannerConfig, Scanner, absent, handle_write_loop, handle_write,
  move_write_cursor_to_next_user_key, move_write_cursor_to_ts, seek_write_cursor,
}

visible-versions_from :
    (vs : List Version) (key : List ℕ) (ts : ℕ)
    → visible_versions (versions_from vs key ts) key ts ≡ visible_versions vs key ts
unfolding visible_versions versions_from
visible-versions_from [] key ts = refl
visible-versions_from (v ∷ vs) key ts = elim (Bool-cases (precedes v key ts)) [
  | inl p ↦
      rw (p, versions_from)
        (ground (arith, visible-versions_from vs key ts, compare_bytes_self v.key))
  | inr p ↦ rw (p, versions_from)
]

after_key-versions_from :
    (vs : List Version) (key : List ℕ) (ts : ℕ)
    → IsSorted vs
    → Reaches vs key
    → after_key (versions_from vs key ts) key ≡ after_key vs key
unfolding after_key versions_from
after_key-versions_from [] key ts s r = refl
after_key-versions_from (v ∷ vs) key ts s r = elim (Bool-cases (precedes v key ts)) [
  | inl p ↦
      let same : equal_bytes v.key key ≡ true = ground arith in
      rw (p, versions_from, same, after_key)
        (after_key-versions_from vs key ts s.1
          (Reaches-tail v vs key s.0 (eq_of_equal_bytes v.key key same)))
  | inr p ↦ rw (p, versions_from)
]

after_key-starts_with :
    (us : List Version) (key : List ℕ) → starts_with us key ≡ false → after_key us key ≡ us
unfolding after_key
after_key-starts_with [] key f = refl
after_key-starts_with (u ∷ us) key f = rw f refl

AllGreater-drop :
    (us : List Version) (key : List ℕ) → AllGreater key us → starts_with (drop 1 us) key ≡ false
AllGreater-drop [] key g = refl
AllGreater-drop (u ∷ []) key g = refl
AllGreater-drop (u ∷ w ∷ us) key g = ground (arith, g.1.0)

versions_from-Reaches_key :
    (vs : List Version) (key : List ℕ) (ts : ℕ)
    → IsSorted vs
    → Reaches vs key
    → Reaches (versions_from vs key ts) key
unfolding versions_from
versions_from-Reaches_key [] key ts s r = tt
versions_from-Reaches_key (v ∷ vs) key ts s r = elim (Bool-cases (precedes v key ts)) [
  | inl p ↦
      let same : equal_bytes v.key key ≡ true = ground arith in
      rw (p, versions_from)
        (versions_from-Reaches_key vs key ts s.1
          (Reaches-tail v vs key s.0 (eq_of_equal_bytes v.key key same)))
  | inr p ↦ rw (p, versions_from) r
]

module _ {cfg : ScannerConfig} {all : List Version} (h : Scans cfg all)
    (n : All NamesNoChange all) where
  At-names : (vs : List Version) (s : Scanner) → At cfg all vs s → All NamesNoChange vs
  At-names vs s a = All-append_right NamesNoChange a.front vs (rw a.suffix at n)

  length-At :
      (vs : List Version) (s : Scanner)
      → At cfg all vs s
      → length vs ≤ length s.write_cursor.entries
  length-At vs s a =
      let entries = ap length a.entries ∙ length-map all entry in
      let parts = ap length a.suffix ∙ length-append a.front vs in omega (arith, entries, parts)

  -- `handleWrite` without the seek of a backward scan.
  handle_write-forward :
      (vs : List Version) (s : Scanner) (key : List ℕ)
      → At cfg all vs s
      → let (t, is_visible) = move_write_cursor_to_ts s key in
        handle_write s key ≡ (
          if is_visible
          then handle_write_loop (suc (length t.write_cursor.entries)) t key
          else (move_write_cursor_to_next_user_key t key, absent))
  unfolding handle_write
  handle_write-forward vs s key a =
      ap
        (λ (b : Bool).
          let s' = if b then seek_write_cursor s (encode_key key s.cfg.read_ts) else s in
          let (t, is_visible) = move_write_cursor_to_ts s' key in
          if is_visible
          then handle_write_loop (suc (length t.write_cursor.entries)) t key
          else (move_write_cursor_to_next_user_key t key, absent))
        (ap (λ (c : ScannerConfig). c.desc) a.same_cfg ∙ h.forward)

  -- At a key with a version that the timestamp sees, `handleWrite` answers as a read of the key, and
  -- leaves the cursor in front of the next key.
  pub handle_write-At :
      (v : Version) (vs : List Version) (s : Scanner)
      → At cfg all (v ∷ vs) s
      → starts_with (versions_from (v ∷ vs) v.key cfg.read_ts) v.key ≡ true
      → IsAnswered h (v ∷ vs) v.key (handle_write s v.key)
  handle_write-At v vs s a seen =
      let (moved, at_key) = move_write_cursor_to_ts-At h v vs s v.key a refl in
      let so = At-IsSorted h (v ∷ vs) s a in
      let here : Reaches (v ∷ vs) v.key = ground (arith, compare_bytes_self v.key) in
      let from = versions_from (v ∷ vs) v.key cfg.read_ts in
      let t = (move_write_cursor_to_ts s v.key).0 in
      let answered =
        handle_write_loop-At h (suc (length t.write_cursor.entries)) from t v.key
          (omega (arith, length-At from t moved)) moved (At-names from t moved)
          (versions_from-Reaches_key (v ∷ vs) v.key cfg.read_ts so here) in
      rw
        (
          handle_write-forward (v ∷ vs) s v.key a,
          at_key ∙ seen,
          ← after_key-versions_from (v ∷ vs) v.key cfg.read_ts so here,
          ← visible-versions_from (v ∷ vs) v.key cfg.read_ts,
        )
        answered

  -- In a forward scan, at a key none of whose versions the timestamp sees, `handleWrite` finds nothing
  -- and drops the newest version of the next key, which no row is read from.
  pub handle_write_skips :
      (v : Version) (vs : List Version) (s : Scanner)
      → At cfg all (v ∷ vs) s
      → starts_with (versions_from (v ∷ vs) v.key cfg.read_ts) v.key ≡ false
      → At cfg all (drop 1 (after_key vs v.key)) (handle_write s v.key).0
        × ((handle_write s v.key).1 ≡ absent)
  handle_write_skips v vs s a unseen =
      let (moved, at_key) = move_write_cursor_to_ts-At h v vs s v.key a refl in
      let so = At-IsSorted h (v ∷ vs) s a in
      let here : Reaches (v ∷ vs) v.key = ground (arith, compare_bytes_self v.key) in
      let t = (move_write_cursor_to_ts s v.key).0 in
      let from : versions_from (v ∷ vs) v.key cfg.read_ts ≡ after_key vs v.key =
        sym (after_key-starts_with (versions_from (v ∷ vs) v.key cfg.read_ts) v.key unseen)
        ∙ after_key-versions_from (v ∷ vs) v.key cfg.read_ts so here
        ∙ after_key-first v vs v.key refl in
      rw (handle_write-forward (v ∷ vs) s v.key a, at_key ∙ unseen)
        (
          move_to_next-other h (after_key vs v.key) t v.key (rw from at moved) (
              AllGreater-drop (after_key vs v.key) v.key
                (after_key-AllGreater v vs v.key refl so.0 so.1)),
          refl,
        )
