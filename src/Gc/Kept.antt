-- ===== src/Gc/Kept.antt =====
-- What `GC` leaves of the versions, and what a read at or above the safe point finds there.
use mathlib.Core.Path.{subst}
use gookv.Prelude.{
  ℕ, ◌≤◌, ◌≡◌, refl, sym, ap, ◌∙◌, Bool, true, false, ◌&&◌, ◌||◌, Option, none, some, List, [], ◌∷◌,
  ◌++◌, leb, ltb, ◌==◌, if◌then◌else◌, arith, Ordering, All, Bool-cases, inl, inr,
}
use gookv.Prelude.Order.{equal_bytes, eq_of_equal_bytes, compare_bytes_self}
use gookv.TxnTypes.Write.{
  Write, write_type_put, write_type_delete, write_type_lock, write_type_rollback,
}
use gookv.Mvcc.Versions.{Version, position, IsSorted}
use gookv.Mvcc.Versions.Visible.{visible_versions, latest_put}
use gookv.Mvcc.Versions.Keys.{
  after_key, visible-after_key, after_key-AllGreater, AllGreater, reader_at,
}
use gookv.Gc.{Verdict, keep_put, meet_delete, drop_record, step_over, verdict}

-- What the verdict on a version leaves of it, of the versions of its key below it, and of those that
-- the walk leaves.
abbrev pub kept_at : Verdict → Version → List Version → List Version → List Version
kept_at keep_put v after further = v ∷ after
kept_at meet_delete v after further = after
kept_at drop_record v after further = further
kept_at step_over v after further = v ∷ further

-- Of the versions of the key at the front, all at or below the safe point.
unfoldable pub kept_below : List ℕ → List Version → List Version
kept_below key [] = []
kept_below key (v ∷ vs) =
    let further = kept_below key vs in
    if equal_bytes v.key key then kept_at (verdict v.write) v (after_key vs key) further else v ∷ vs

-- Of the versions of the key at the front, on both sides of the safe point.
unfoldable pub kept : List ℕ → ℕ → List Version → List Version
kept key safe_point [] = []
kept key safe_point (v ∷ vs) =
    let rest = kept key safe_point vs in
    if equal_bytes v.key key
    then (if ltb safe_point v.commit_ts then v ∷ rest else kept_below key (v ∷ vs))
    else v ∷ vs

greater-unseen :
    (vs : List Version) (key : List ℕ) (ts : ℕ)
    → AllGreater key vs
    → visible_versions vs key ts ≡ []
unfolding visible_versions
greater-unseen [] key ts g = refl
greater-unseen (v ∷ vs) key ts g = ground (arith, greater-unseen vs key ts g.1)

-- What a read finds at a version, by the verdict on it and what it finds below.
abbrev latest_at : Verdict → Version → Option (Write × ℕ) → Option (Write × ℕ)
latest_at keep_put v older = some (v.write, v.commit_ts)
latest_at meet_delete v older = none
latest_at drop_record v older = older
latest_at step_over v older = none

latest_put-verdict :
    (v : Version) (vs : List Version)
    → latest_put (v ∷ vs) ≡ latest_at (verdict v.write) v (latest_put vs)
unfolding latest_put
latest_put-verdict v vs =
    let t = v.write.write_type in
    elim (Bool-cases (t == write_type_put)) [
      | inl is_put ↦ rw is_put refl
      | inr no_put ↦ elim (Bool-cases (t == write_type_delete)) [
        | inl is_delete ↦ rw (no_put, is_delete) refl
        | inr no_delete ↦ elim (Bool-cases (t == write_type_lock || t == write_type_rollback)) [
          | inl passes ↦ rw (no_put, no_delete, passes) refl
          | inr other ↦ rw (no_put, no_delete, other) refl
        ]
      ]
    ]

reader-seen :
    (v : Version) (vs : List Version) (k : List ℕ) (ts : ℕ)
    → (equal_bytes v.key k && leb v.commit_ts ts) ≡ true
    → reader_at (v ∷ vs) ts k ≡ latest_at (verdict v.write) v (reader_at vs ts k)
unfolding visible_versions
reader-seen v vs k ts e =
    ap
      (λ (b : Bool).
        latest_put (if b then v ∷ visible_versions vs k ts else visible_versions vs k ts))
      e
    ∙ latest_put-verdict v (visible_versions vs k ts)

reader-unseen :
    (v : Version) (vs : List Version) (k : List ℕ) (ts : ℕ)
    → (equal_bytes v.key k && leb v.commit_ts ts) ≡ false
    → reader_at (v ∷ vs) ts k ≡ reader_at vs ts k
unfolding visible_versions
reader-unseen v vs k ts e =
    ap
      (λ (b : Bool).
        latest_put (if b then v ∷ visible_versions vs k ts else visible_versions vs k ts))
      e

-- Behind the versions of its key nothing of it is left to read.
reader-after :
    (v : Version) (vs : List Version) (k : List ℕ) (ts : ℕ)
    → IsSorted (v ∷ vs)
    → v.key ≡ k
    → reader_at (after_key vs k) ts k ≡ none
unfolding latest_put
reader-after v vs k ts s e =
    ap latest_put (greater-unseen (after_key vs k) k ts (after_key-AllGreater v vs k e s.0 s.1))

-- A version of the key that the read sees.
kept_at-mine :
    (x : Verdict) (v : Version) (vs further : List Version) (k : List ℕ) (ts : ℕ)
    → IsSorted (v ∷ vs)
    → v.key ≡ k
    → v.commit_ts ≤ ts
    → verdict v.write ≡ x
    → reader_at further ts k ≡ reader_at vs ts k
    → reader_at (kept_at x v (after_key vs k) further) ts k ≡ reader_at (v ∷ vs) ts k
kept_at-mine x v vs further k ts s e le q ih =
    let seen : (equal_bytes v.key k && leb v.commit_ts ts) ≡ true =
      ground (arith, compare_bytes_self k) in
    let all : (us : List Version) → reader_at (v ∷ us) ts k ≡ latest_at x v (reader_at us ts k) =
      λ us. reader-seen v us k ts seen ∙ ap (λ y. latest_at y v (reader_at us ts k)) q in
    go x all
  where
    go :
        (y : Verdict)
        → ((us : List Version) → reader_at (v ∷ us) ts k ≡ latest_at y v (reader_at us ts k))
        → reader_at (kept_at y v (after_key vs k) further) ts k ≡ reader_at (v ∷ vs) ts k
    go keep_put a = a (after_key vs k) ∙ sym (a vs)
    go meet_delete a = reader-after v vs k ts s e ∙ sym (a vs)
    go drop_record a = ih ∙ sym (a vs)
    go step_over a = a further ∙ sym (a vs)

-- A version of another key.
kept_at-foreign :
    (x : Verdict) (v : Version) (vs further : List Version) (key k : List ℕ) (ts : ℕ)
    → v.key ≡ key
    → equal_bytes key k ≡ false
    → reader_at further ts k ≡ reader_at vs ts k
    → reader_at (kept_at x v (after_key vs key) further) ts k ≡ reader_at (v ∷ vs) ts k
kept_at-foreign x v vs further key k ts e foreign ih =
    let unseen : (equal_bytes v.key k && leb v.commit_ts ts) ≡ false =
      ap (λ l. equal_bytes l k && leb v.commit_ts ts) e
      ∙ ap (λ b. b && leb v.commit_ts ts) foreign in
    go x (λ us. reader-unseen v us k ts unseen)
      (ap latest_put (sym (visible-after_key vs key k ts foreign)))
  where
    go :
        (y : Verdict)
        → ((us : List Version) → reader_at (v ∷ us) ts k ≡ reader_at us ts k)
        → reader_at (after_key vs key) ts k ≡ reader_at vs ts k
        → reader_at (kept_at y v (after_key vs key) further) ts k ≡ reader_at (v ∷ vs) ts k
    go keep_put a p = a (after_key vs key) ∙ p ∙ sym (a vs)
    go meet_delete a p = p ∙ sym (a vs)
    go drop_record a p = ih ∙ sym (a vs)
    go step_over a p = a further ∙ ih ∙ sym (a vs)

-- The versions of the key at or below the safe point: what a read finds stays.
kept_below-reads :
    (vs : List Version) (key k : List ℕ) (ts : ℕ)
    → IsSorted vs
    → All (λ v. v.key ≡ key → v.commit_ts ≤ ts) vs
    → reader_at (kept_below key vs) ts k ≡ reader_at vs ts k
unfolding kept_below
kept_below-reads [] key k ts s b = refl
kept_below-reads (v ∷ vs) key k ts s b =
    let ih = kept_below-reads vs key k ts s.1 b.1 in
    elim (Bool-cases (equal_bytes v.key key)) [
      | inr other ↦ rw (other, kept_below) refl
      | inl same ↦
          let e = eq_of_equal_bytes v.key key same in
          rw (same, kept_below)
            (elim (Bool-cases (equal_bytes key k)) [
              | inl mine ↦
                  let m = eq_of_equal_bytes key k mine in
                  subst
                    (λ l.
                      reader_at (kept_at (verdict v.write) v (after_key vs l) (kept_below key vs))
                        ts k
                      ≡ reader_at (v ∷ vs) ts k)
                    (sym m)
                    (kept_at-mine (verdict v.write) v vs (kept_below key vs) k ts s (e ∙ m) (b.0 e)
                      refl ih)
              | inr foreign ↦
                  kept_at-foreign (verdict v.write) v vs (kept_below key vs) key k ts e foreign ih
            ])
    ]

-- Versions are sorted by falling timestamps, so that all behind one at or below a timestamp are.
all-below :
    (v : Version) (vs : List Version) (key : List ℕ) (ts : ℕ)
    → v.key ≡ key
    → v.commit_ts ≤ ts
    → All (λ w. position v w.key w.commit_ts ≡ Ordering.lt) vs
    → All (λ w. w.key ≡ key → w.commit_ts ≤ ts) vs
all-below v [] key ts k le s = tt
all-below v (w ∷ ws) key ts k le s =
    (λ e. ground (arith, compare_bytes_self key), all-below v ws key ts k le s.1)

-- What a read at or above the safe point finds, it finds in what is left.
pub kept-reads :
    (vs : List Version) (key k : List ℕ) (safe_point ts : ℕ)
    → IsSorted vs
    → safe_point ≤ ts
    → reader_at (kept key safe_point vs) ts k ≡ reader_at vs ts k
unfolding kept
kept-reads [] key k safe_point ts s le = refl
kept-reads (v ∷ vs) key k safe_point ts s le =
    let ih = kept-reads vs key k safe_point ts s.1 le in
    elim (Bool-cases (equal_bytes v.key key)) [
      | inr other ↦ rw (other, kept) refl
      | inl same ↦
          let e = eq_of_equal_bytes v.key key same in
          elim (Bool-cases (ltb safe_point v.commit_ts)) [
            | inl above ↦
                rw (same, above, kept)
                  (elim (Bool-cases (equal_bytes v.key k && leb v.commit_ts ts)) [
                    | inl seen ↦
                        reader-seen v (kept key safe_point vs) k ts seen
                        ∙ ap (latest_at (verdict v.write) v) ih
                        ∙ sym (reader-seen v vs k ts seen)
                    | inr unseen ↦
                        reader-unseen v (kept key safe_point vs) k ts unseen
                        ∙ ih
                        ∙ sym (reader-unseen v vs k ts unseen)
                  ])
            | inr below ↦
                let low : v.commit_ts ≤ ts = ground arith in
                rw (same, below, kept)
                  (kept_below-reads (v ∷ vs) key k ts s
                    ((λ _. low), all-below v vs key ts e low s.0))
          ]
    ]

-- A reader that finds the same in two lists finds the same in them behind other versions.
pub reader-append :
    (front xs ys : List Version) (ts : ℕ) (k : List ℕ)
    → reader_at xs ts k ≡ reader_at ys ts k
    → reader_at (front ++ xs) ts k ≡ reader_at (front ++ ys) ts k
reader-append [] xs ys ts k e = e
reader-append (v ∷ front) xs ys ts k e =
    let ih = reader-append front xs ys ts k e in
    elim (Bool-cases (equal_bytes v.key k && leb v.commit_ts ts)) [
      | inl seen ↦
          reader-seen v (front ++ xs) k ts seen
          ∙ ap (latest_at (verdict v.write) v) ih
          ∙ sym (reader-seen v (front ++ ys) k ts seen)
      | inr unseen ↦
          reader-unseen v (front ++ xs) k ts unseen
          ∙ ih
          ∙ sym (reader-unseen v (front ++ ys) k ts unseen)
    ]
