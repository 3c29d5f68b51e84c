-- ===== src/Mvcc/Scanning/Records.antt =====
-- The loop of `handleWrite` of a forward scan, over entries that hold versions.
use gookv.Prelude.{
  ℕ, zero, suc, ◌<◌, ◌≤◌, ◌≡◌, refl, ap, ◌∙◌, Bool, true, false, not, ◌||◌, List, [], ◌∷◌, map,
  length, leb, ◌==◌, if◌then◌else◌, arith, All, Bool-cases, inl, inr,
}
use gookv.Prelude.Order.{equal_bytes, eq_of_equal_bytes, compare_bytes_self}
use gookv.TxnTypes.Write.{
  Write, write_type_put, write_type_delete, write_type_lock, write_type_rollback,
}
use gookv.TxnTypes.Write.RoundTrip.{unmarshal_write-marshal}
use gookv.Mvcc.Key.{encode_key}
use gookv.Mvcc.Key.Laws.{decode-encode_key}
use gookv.Mvcc.Snapshot.{Entries}
use gookv.Mvcc.Versions.{Version, entry, IsStorable}
use gookv.Mvcc.Versions.Next.{Reaches, Reaches-tail}
use gookv.Mvcc.Versions.Keys.{after_key}
use gookv.Mvcc.Versions.Visible.{visible_versions, latest_put, none-visible}
use gookv.Mvcc.Reader.{can_jump}
use gookv.Mvcc.Reader.Writes.{NamesNoChange}
use gookv.Mvcc.Scanning.At.{At, Scans, At-IsStorable, At-IsSorted, At-next}
use gookv.Mvcc.Scanning.Leaving.{move_write_cursor_to_next_user_key-At}
use gookv.Mvcc.Scanning.Values.{answer_of, handle_put-At}
use gookv.Mvcc.Scanner.{
  ScannerConfig, Scanner, next_write, visit, count_seek, on_visit, Visit, moved_past, too_new,
  record_here, count_scanned, Handled, absent, handle_write_loop, pass_record, seek_write_cursor,
}

abbrev visit_of : List Version → List ℕ → ℕ → Visit
visit_of [] key ts = moved_past
visit_of (v ∷ vs) key ts =
    if not (equal_bytes v.key key)
    then moved_past
    else if not (leb v.commit_ts ts)
    then too_new
    else record_here v.write

module _ {cfg : ScannerConfig} {all : List Version} (h : Scans cfg all) where
  visit-entries :
      (vs : List Version) (key : List ℕ)
      → All IsStorable vs
      → visit cfg (map entry vs) key ≡ visit_of vs key cfg.read_ts
  unfolding visit
  visit-entries [] key s = refl
  visit-entries (v ∷ vs) key s = rw (
    visit,
    decode-encode_key v.key v.commit_ts s.0.commit_ts_fits,
    unmarshal_write-marshal v.write s.0.write_fits,
    s.0.write_stored,
  )

  visit-At :
      (vs : List Version) (s : Scanner) (key : List ℕ)
      → At cfg all vs s
      → visit s.cfg s.write_cursor.ahead key ≡ visit_of vs key cfg.read_ts
  visit-At vs s key a =
      ap (λ (c : ScannerConfig). visit c s.write_cursor.ahead key) a.same_cfg
      ∙ ap (λ (es : Entries). visit cfg es key) a.ahead
      ∙ visit-entries vs key (At-IsStorable h vs s a)

  At-count : (vs : List Version) (s : Scanner) → At cfg all vs s → At cfg all vs (count_scanned s)
  At-count vs s a = record {
    same_cfg = a.same_cfg;
    no_lock = a.no_lock;
    started = a.started;
    defaults = a.defaults;
    entries = a.entries;
    ahead = a.ahead;
    front = a.front;
    suffix = a.suffix;
  }

  pass-next :
      (s : Scanner) (key : List ℕ) (w : Write)
      → w.last_change.ts ≡ 0
      → pass_record s key w ≡ next_write s
  pass-next s key w n =
      let stays : can_jump w ≡ false = ground arith in
      ap
        (λ (b : Bool).
          if b
          then count_seek (seek_write_cursor s (encode_key key w.last_change.ts))
          else next_write s)
        stays

  handle_write_loop-suc :
      (fuel : ℕ) (vs : List Version) (s : Scanner) (key : List ℕ)
      → At cfg all vs s
      → handle_write_loop (suc fuel) s key
        ≡ on_visit s key
            (handle_write_loop fuel (next_write s) key)
            (λ w. handle_write_loop fuel (pass_record (count_scanned s) key w) key)
            (visit_of vs key cfg.read_ts)
  unfolding handle_write_loop
  handle_write_loop-suc fuel vs s key a =
      ap
        (on_visit s key (handle_write_loop fuel (next_write s) key)
          (λ w. handle_write_loop fuel (pass_record (count_scanned s) key w) key))
        (visit-At vs s key a)

  abbrev pub IsAnswered : List Version → List ℕ → Scanner × Handled → Type 0
  IsAnswered vs key r =
      At cfg all (after_key vs key) r.0
      × (r.1 ≡ answer_of cfg key (latest_put (visible_versions vs key cfg.read_ts)))

  -- A version of the key at the front that the timestamp sees.
  on_visit-At :
      (v : Version) (vs : List Version) (s : Scanner) (key : List ℕ) (newer : Scanner × Handled)
      (passed : Write → Scanner × Handled)
      → At cfg all (v ∷ vs) s
      → v.key ≡ key
      → v.commit_ts ≤ cfg.read_ts
      → IsAnswered vs key (passed v.write)
      → IsAnswered (v ∷ vs) key (on_visit s key newer passed (record_here v.write))
  unfolding on_visit after_key visible_versions latest_put answer_of
  on_visit-At v vs s key newer passed a k le p =
      let same : equal_bytes v.key key ≡ true = ground (arith, compare_bytes_self key) in
      let seen : leb v.commit_ts cfg.read_ts ≡ true = ground arith in
      let put = handle_put-At h v vs (count_scanned s) key v.write v.commit_ts (At-count _ s a) k in
      let left =
        move_write_cursor_to_next_user_key-At h v vs (count_scanned s) key (At-count _ s a) k in
      let t = v.write.write_type in
      rw (same, seen)
        (elim (Bool-cases (t == write_type_put)) [
          | inl is_put ↦ rw (is_put, on_visit, latest_put) put
          | inr no_put ↦ elim (Bool-cases (t == write_type_delete)) [
            | inl is_delete ↦ rw (no_put, is_delete, on_visit, latest_put) (left, refl)
            | inr no_delete ↦ elim (Bool-cases (t == write_type_lock || t == write_type_rollback)) [
              | inl passes ↦ rw (no_put, no_delete, passes, on_visit, latest_put) p
              | inr other ↦ rw (no_put, no_delete, other, on_visit, latest_put) (left, refl)
            ]
          ]
        ])

  IsAnswered-end : (s : Scanner) (key : List ℕ) → At cfg all [] s → IsAnswered [] key (s, absent)
  unfolding after_key visible_versions latest_put answer_of
  IsAnswered-end s key a = (a, refl)

  -- A version of the key that is too new is passed.
  IsAnswered-newer :
      (v : Version) (vs : List Version) (key : List ℕ) (r : Scanner × Handled)
      → equal_bytes v.key key ≡ true
      → leb v.commit_ts cfg.read_ts ≡ false
      → IsAnswered vs key r
      → IsAnswered (v ∷ vs) key r
  unfolding after_key visible_versions
  IsAnswered-newer v vs key r same new i = rw (same, new) i

  -- In front of a larger key no version of the key is left.
  IsAnswered-other :
      (v : Version) (vs : List Version) (s : Scanner) (key : List ℕ)
      → equal_bytes v.key key ≡ false
      → At cfg all (v ∷ vs) s
      → Reaches (v ∷ vs) key
      → IsAnswered (v ∷ vs) key (s, absent)
  unfolding after_key visible_versions latest_put answer_of
  IsAnswered-other v vs s key other a r =
      let gone = none-visible v vs key cfg.read_ts (At-IsSorted h (v ∷ vs) s a).0 (ground arith) in
      rw (other, gone) (a, refl)

  pub handle_write_loop-At :
      (fuel : ℕ) (vs : List Version) (s : Scanner) (key : List ℕ)
      → length vs < fuel
      → At cfg all vs s
      → All NamesNoChange vs
      → Reaches vs key
      → IsAnswered vs key (handle_write_loop fuel s key)
  unfolding on_visit
  handle_write_loop-At zero vs s key f a n r = absurd (omega arith)
  handle_write_loop-At (suc fuel) [] s key f a n r =
      rw (handle_write_loop-suc fuel [] s key a) (IsAnswered-end s key a)
  handle_write_loop-At (suc fuel) (v ∷ vs) s key f a n r =
      let b = At-count (v ∷ vs) s a in
      let so = (At-IsSorted h (v ∷ vs) s a).0 in
      let f' : length vs < fuel = omega (arith, f) in
      let newer = handle_write_loop fuel (next_write s) key in
      let passed : Write → Scanner × Handled =
        λ w. handle_write_loop fuel (pass_record (count_scanned s) key w) key in
      rw (handle_write_loop-suc fuel (v ∷ vs) s key a) (elim (Bool-cases (equal_bytes v.key key)) [
        | inl same ↦
            let k = eq_of_equal_bytes v.key key same in
            let rest = Reaches-tail v vs key so k in
            elim (Bool-cases (leb v.commit_ts cfg.read_ts)) [
              | inl old ↦
                  let further =
                    handle_write_loop-At fuel vs (next_write (count_scanned s)) key f'
                      (At-next h v vs (count_scanned s) b) n.1 rest in
                  let further' : IsAnswered vs key (passed v.write) =
                    rw (pass-next (count_scanned s) key v.write n.0) further in
                  rw (same, old) (on_visit-At v vs s key newer passed a k (ground arith) further')
              | inr new ↦
                  rw (same, new)
                    (IsAnswered-newer v vs key newer same new (
                      handle_write_loop-At fuel vs (next_write s) key f' (At-next h v vs s a) n.1
                        rest))
            ]
        | inr other ↦ rw other (IsAnswered-other v vs s key other a r)
      ])
