-- ===== src/Mvcc/Scanning/At.antt =====
-- A forward scan over entries that hold versions: what it means that the scanner stands in front of
-- some of them.
use gookv.Mvcc.Versions.Keys.{IsSorted-append_right}
use gookv.Prelude.{
  All-append_right, ℕ, ◌≡◌, refl, sym, ap, ◌∙◌, true, false, Option, none, some, List, [], ◌∷◌,
  ◌++◌, map, arith, All, Bool-cases, inl, inr, append_assoc,
}
use gookv.Codec.Number.{IsU64}
use gookv.Mvcc.Key.{encode_key}
use gookv.Mvcc.Iterator.{Iterator, next_entry, seek_iterator}
use gookv.Mvcc.Versions.{Version, entry, precedes, IsStorable, IsSorted, versions_from}
use gookv.Mvcc.Versions.Insert.{position_trans}
use gookv.Mvcc.Reader.Writes.{seek-entries}
use gookv.Mvcc.Scanner.{ScannerConfig, Scanner, lock_user_key, next_write, seek_write_cursor}

-- What stands in front of a version that precedes a position precedes the position too.
versions_from-append :
    (front : List Version) (v : Version) (vs : List Version) (key : List ℕ) (ts : ℕ)
    → IsSorted (front ++ (v ∷ vs))
    → precedes v key ts ≡ true
    → versions_from (front ++ (v ∷ vs)) key ts ≡ versions_from vs key ts
unfolding versions_from
versions_from-append [] v vs key ts s p = rw p
versions_from-append (x ∷ front) v vs key ts s p =
    let target : Version = record { key = key; commit_ts = ts; write = v.write } in
    let first = (All-append_right _ front (v ∷ vs) s.0).0 in
    let before = position_trans x v target first (ground arith) in
    let before' : precedes x key ts ≡ true = ground arith in
    rw (before', versions_from) (versions_from-append front v vs key ts s.1 p)

pub versions_from-suffix :
    (vs : List Version) (key : List ℕ) (ts : ℕ)
    → (front : List Version) × (vs ≡ front ++ versions_from vs key ts)
unfolding versions_from
versions_from-suffix [] key ts = ([], refl)
versions_from-suffix (v ∷ vs) key ts = elim (Bool-cases (precedes v key ts)) [
  | inl p ↦
      let (front, e) = versions_from-suffix vs key ts in
      (v ∷ front, rw (p, versions_from) (ap (◌∷◌ v) e))
  | inr p ↦ ([], rw (p, versions_from) refl)
]

-- A cursor of CF_DEFAULT stands on all of its entries.
abbrev pub DefaultsOf : ScannerConfig → Option Iterator → Type 0
DefaultsOf cfg none = Unit
DefaultsOf cfg (some it) = it.entries ≡ cfg.snapshot.cf_default

-- The scanner stands in front of `vs` on the entries of `all`, with no lock in front of it.
pub record At (cfg : ScannerConfig) (all vs : List Version) (s : Scanner) : Type 0 where
  pub same_cfg : s.cfg ≡ cfg
  pub no_lock : lock_user_key s ≡ none
  pub started : s.is_started ≡ true
  pub defaults : DefaultsOf cfg s.default_cursor
  pub entries : s.write_cursor.entries ≡ map entry all
  pub ahead : s.write_cursor.ahead ≡ map entry vs
  pub front : List Version
  pub suffix : all ≡ front ++ vs

-- A forward scan at a timestamp of 64 bits, over versions that can be read back, sorted.
pub record Scans (cfg : ScannerConfig) (all : List Version) : Type 0 where
  pub forward : cfg.desc ≡ false
  pub read_ts_fits : IsU64 cfg.read_ts
  pub storable : All IsStorable all
  pub sorted : IsSorted all

module _ {cfg : ScannerConfig} {all : List Version} (h : Scans cfg all) where
  pub At-IsStorable : (vs : List Version) (s : Scanner) → At cfg all vs s → All IsStorable vs
  At-IsStorable vs s a = All-append_right IsStorable a.front vs (rw a.suffix at h.storable)

  pub At-IsSorted : (vs : List Version) (s : Scanner) → At cfg all vs s → IsSorted vs
  At-IsSorted vs s a = IsSorted-append_right a.front vs (rw a.suffix at h.sorted)

  pub At-next :
      (v : Version) (vs : List Version) (s : Scanner)
      → At cfg all (v ∷ vs) s
      → At cfg all vs (next_write s)
  unfolding next_entry
  At-next v vs s a = record {
    same_cfg = a.same_cfg;
    no_lock = a.no_lock;
    started = a.started;
    defaults = a.defaults;
    entries = rw a.ahead a.entries;
    ahead = rw a.ahead refl;
    front = a.front ++ (v ∷ []);
    suffix = a.suffix ∙ sym (append_assoc a.front (v ∷ []) vs);
  }

  pub At-seek :
      (v : Version) (vs : List Version) (s : Scanner) (key : List ℕ) (ts : ℕ)
      → At cfg all (v ∷ vs) s
      → precedes v key ts ≡ true
      → IsU64 ts
      → At cfg all (versions_from vs key ts) (seek_write_cursor s (encode_key key ts))
  unfolding seek_iterator
  At-seek v vs s key ts a p f =
      let (front, e) = versions_from-suffix vs key ts in
      record {
        same_cfg = a.same_cfg;
        no_lock = a.no_lock;
        started = a.started;
        defaults = a.defaults;
        entries = a.entries;
        ahead =
            rw (a.entries, seek-entries all key ts f h.storable)
              (ap (map entry) (
                ap (λ (l : List Version). versions_from l key ts) a.suffix
                ∙ versions_from-append a.front v vs key ts (rw a.suffix at h.sorted) p));
        front = a.front ++ (v ∷ front);
        suffix =
            a.suffix
            ∙ ap (λ (l : List Version). a.front ++ (v ∷ l)) e
            ∙ sym (append_assoc a.front (v ∷ front) (versions_from vs key ts));
      }
