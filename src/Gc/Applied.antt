-- ===== src/Gc/Applied.antt =====
-- The modifications of `GC`, applied to a well-formed store.
use mathlib.Core.Path.{subst}
use gookv.Prelude.{
  ℕ, ◌≡◌, sym, ap, ◌∙◌, List, [], ◌∷◌, ◌++◌, ltb, All-append_right, Bool-cases, inl, inr,
  append_assoc,
}
use gookv.Prelude.Order.{equal_bytes, eq_of_equal_bytes}
use gookv.Mvcc.Key.{encode_key}
use gookv.Mvcc.Snapshot.{Snapshot}
use gookv.Mvcc.Txn.{delete, cf_write, cf_default, delete_write, delete_value}
use gookv.Mvcc.Txn.Apply.{apply, apply_all, apply_all-snoc, delete_entry}
use gookv.Mvcc.Versions.{Version, IsStorable}
use gookv.Mvcc.Versions.Keys.{after_key}
use gookv.Mvcc.Reader.Writes.{NamesNoChange}
use gookv.Mvcc.Reader.Records.{StartsBefore}
use gookv.Mvcc.Holds.{Holds}
use gookv.Gc.{
  Collected, drop_version, drop_old, has_large_value, Verdict, keep_put, meet_delete, drop_record,
  step_over, verdict,
}
use gookv.Gc.Removed.{
  delete_entry-entries, remove-middle, remove_version-All, remove_version-IsSorted,
}
use gookv.Gc.Run.{dropped, settled, rewound, count}
use gookv.Gc.Kept.{kept, kept_below, kept_at}

delete_write-Holds :
    (s : Snapshot) (front : List Version) (v : Version) (vs : List Version)
    → Holds s (front ++ (v ∷ vs))
    → Holds (apply s (delete cf_write (encode_key v.key v.commit_ts))) (front ++ vs)
unfolding apply
delete_write-Holds s front v vs h =
    let us = front ++ (v ∷ vs) in
    let st = (All-append_right IsStorable front (v ∷ vs) h.storable).0 in
    subst (Holds (apply s (delete cf_write (encode_key v.key v.commit_ts))))
      (remove-middle front v vs h.sorted)
      (record {
        entries =
            ap (λ es. delete_entry es (encode_key v.key v.commit_ts)) h.entries
            ∙ delete_entry-entries us v.key v.commit_ts st.commit_ts_fits h.storable;
        storable = remove_version-All IsStorable us v.key v.commit_ts h.storable;
        names_no_change = remove_version-All NamesNoChange us v.key v.commit_ts h.names_no_change;
        starts_before = remove_version-All StartsBefore us v.key v.commit_ts h.starts_before;
        sorted = remove_version-IsSorted us v.key v.commit_ts h.sorted;
      })

delete_value-Holds :
    (s : Snapshot) (vs : List Version) (k : List ℕ)
    → Holds s vs
    → Holds (apply s (delete cf_default k)) vs
unfolding apply
delete_value-Holds s vs k h = record {
  entries = h.entries;
  storable = h.storable;
  names_no_change = h.names_no_change;
  starts_before = h.starts_before;
  sorted = h.sorted;
}

module _ (s : Snapshot) (key : List ℕ) where
  -- The store that the collected modifications make.
  abbrev pub store_of : Collected → Snapshot
  store_of c = apply_all s c.0.modifies

  drop_version-Holds :
      (c : Collected) (front : List Version) (v : Version) (vs : List Version)
      → Holds (store_of c) (front ++ (v ∷ vs))
      → v.key ≡ key
      → Holds (store_of (drop_version key v.commit_ts c)) (front ++ vs)
  unfolding delete_write
  drop_version-Holds c front v vs h e =
      subst (λ k. Holds (store_of (drop_version k v.commit_ts c)) (front ++ vs)) e
        (subst (λ t. Holds t (front ++ vs))
          (sym (apply_all-snoc s c.0.modifies (delete cf_write (encode_key v.key v.commit_ts))))
          (delete_write-Holds (store_of c) front v vs h))

  drop_old-Holds :
      (c : Collected) (front : List Version) (v : Version) (vs : List Version)
      → Holds (store_of c) (front ++ (v ∷ vs))
      → v.key ≡ key
      → Holds (store_of (drop_old key v.write v.commit_ts c)) (front ++ vs)
  unfolding delete_value
  drop_old-Holds c front v vs h e =
      let c' = drop_version key v.commit_ts c in
      let gone = drop_version-Holds c front v vs h e in
      elim (Bool-cases (has_large_value v.write)) [
        | inl large ↦ rw large (
            subst (λ t. Holds t (front ++ vs))
              (sym (
                apply_all-snoc s c'.0.modifies
                  (delete cf_default (encode_key key v.write.start_ts))))
              (delete_value-Holds (store_of c') (front ++ vs) (encode_key key v.write.start_ts)
                gone))
        | inr small ↦ rw small gone
      ]

  dropped-Holds :
      (c : Collected) (front vs : List Version)
      → Holds (store_of c) (front ++ vs)
      → Holds (store_of (dropped key c vs)) (front ++ after_key vs key)
  unfolding dropped after_key
  dropped-Holds c front [] h = h
  dropped-Holds c front (v ∷ vs) h = elim (Bool-cases (equal_bytes v.key key)) [
    | inl same ↦
        rw (same, dropped, after_key)
          (dropped-Holds (drop_old key v.write v.commit_ts (count c)) front vs
            (drop_old-Holds (count c) front v vs h (eq_of_equal_bytes v.key key same)))
    | inr other ↦ rw (other, dropped, after_key) h
  ]

  -- A version that stays moves to the front.
  to_front :
      (t : Snapshot) (front : List Version) (v : Version) (vs : List Version)
      → Holds t (front ++ (v ∷ vs))
      → Holds t ((front ++ (v ∷ [])) ++ vs)
  to_front t front v vs h = subst (Holds t) (sym (append_assoc front (v ∷ []) vs)) h

  from_front :
      (t : Snapshot) (front : List Version) (v : Version) (vs : List Version)
      → Holds t ((front ++ (v ∷ [])) ++ vs)
      → Holds t (front ++ (v ∷ vs))
  from_front t front v vs h = subst (Holds t) (append_assoc front (v ∷ []) vs) h

  settled-Holds :
      (c : Collected) (front vs : List Version)
      → Holds (store_of c) (front ++ vs)
      → Holds (store_of (settled key c vs)) (front ++ kept_below key vs)
  unfolding settled kept_below
  settled-Holds c front [] h = h
  settled-Holds c front (v ∷ vs) h = elim (Bool-cases (equal_bytes v.key key)) [
    | inl same ↦
        rw (same, settled, kept_below)
          (go (verdict v.write) (eq_of_equal_bytes v.key key same)
            (settled-Holds (drop_version key v.commit_ts (count c)) front vs)
            (settled-Holds (count c) (front ++ (v ∷ [])) vs))
    | inr other ↦ rw (other, settled, kept_below) h
  ]
    where
      go :
          (x : Verdict)
          → v.key ≡ key
          → (Holds (store_of (drop_version key v.commit_ts (count c))) (front ++ vs)
              → Holds
                  (store_of (settled key (drop_version key v.commit_ts (count c)) vs))
                  (front ++ kept_below key vs))
          → (Holds (store_of c) ((front ++ (v ∷ [])) ++ vs)
              → Holds
                  (store_of (settled key (count c) vs))
                  ((front ++ (v ∷ [])) ++ kept_below key vs))
          → Holds
              (store_of (elim x [
                | keep_put ↦ dropped key (count c) vs
                | meet_delete ↦ drop_version key v.commit_ts (dropped key (count c) vs)
                | drop_record ↦ settled key (drop_version key v.commit_ts (count c)) vs
                | step_over ↦ settled key (count c) vs
              ]))
              (front ++ kept_at x v (after_key vs key) (kept_below key vs))
      go keep_put e f g =
          from_front _ front v (after_key vs key)
            (dropped-Holds (count c) (front ++ (v ∷ [])) vs (to_front _ front v vs h))
      go meet_delete e f g =
          drop_version-Holds (dropped key (count c) vs) front v (after_key vs key)
            (from_front _ front v (after_key vs key)
              (dropped-Holds (count c) (front ++ (v ∷ [])) vs (to_front _ front v vs h)))
            e
      go drop_record e f g = f (drop_version-Holds (count c) front v vs h e)
      go step_over e f g = from_front _ front v (kept_below key vs) (g (to_front _ front v vs h))

  pub rewound-Holds :
      (safe_point : ℕ) (c : Collected) (front vs : List Version)
      → Holds (store_of c) (front ++ vs)
      → Holds (store_of (rewound key safe_point c vs)) (front ++ kept key safe_point vs)
  unfolding rewound kept
  rewound-Holds safe_point c front [] h = h
  rewound-Holds safe_point c front (v ∷ vs) h = elim (Bool-cases (equal_bytes v.key key)) [
    | inl same ↦ elim (Bool-cases (ltb safe_point v.commit_ts)) [
      | inl above ↦
          rw (same, above, rewound, kept)
            (from_front _ front v (kept key safe_point vs)
              (rewound-Holds safe_point (count c) (front ++ (v ∷ [])) vs (to_front _ front v vs h)))
      | inr below ↦ rw (same, below, rewound, kept) (settled-Holds c front (v ∷ vs) h)
    ]
    | inr other ↦ rw (other, rewound, kept) h
  ]
