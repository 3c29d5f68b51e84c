-- ===== src/Mvcc/Scanning/Values.antt =====
-- The values that a forward scan finds, over entries that hold versions.
use gookv.Prelude.{ℕ, ◌≡◌, refl, ap, ◌∙◌, Bool, true, false, Option, none, some, List, [], ◌∷◌}
use gookv.TxnTypes.Write.{Write}
use gookv.Mvcc.Key.{encode_key}
use gookv.Mvcc.Snapshot.{Entries, seek}
use gookv.Mvcc.Iterator.{Iterator, within, new_iterator, seek_iterator}
use gookv.Mvcc.Versions.{Version}
use gookv.Mvcc.Versions.Keys.{after_key}
use gookv.Mvcc.Scanning.At.{At, Scans, DefaultsOf}
use gookv.Mvcc.Scanning.Leaving.{move_write_cursor_to_next_user_key-At}
use gookv.Mvcc.Scanner.{
  ScannerConfig, Scanner, value_at, loaded, load_value_from_default, ensure_default_cursor,
  open_default, read_put, Handled, found, absent, handle_put,
}

-- The value that a put stands for.
unfoldable pub value_of : ScannerConfig → List ℕ → ℕ → Bool → Option (List ℕ) → Handled
value_of cfg key start_ts true short_value = found none
value_of cfg key start_ts false (some v) = found (some v)
value_of cfg key start_ts false none =
    loaded start_ts (value_at (seek cfg.snapshot.cf_default (encode_key key start_ts)) key start_ts)

-- The answer for the record that a read finds.
unfoldable pub answer_of : ScannerConfig → List ℕ → Option (Write × ℕ) → Handled
answer_of cfg key none = absent
answer_of cfg key (some (w, _)) = value_of cfg key w.start_ts cfg.key_only w.short_value

within-none : (es : Entries) → within es (record { lower_bound = none; upper_bound = none }) ≡ es
unfolding within
within-none [] = refl
within-none ((k, v) ∷ es) = ap (◌∷◌ (k, v)) (within-none es)

module _ {cfg : ScannerConfig} {all : List Version} (h : Scans cfg all) where
  open_default-At :
      (vs : List Version) (s : Scanner) (o : Option Iterator)
      → At cfg all vs s
      → DefaultsOf cfg o
      → At cfg all vs (open_default s o).0
        × ((open_default s o).1.entries ≡ cfg.snapshot.cf_default)
  unfolding new_iterator
  open_default-At vs s (some it) a d = (a, d)
  open_default-At vs s none a d =
      let e =
        within-none s.cfg.snapshot.cf_default
        ∙ ap (λ (c : ScannerConfig). c.snapshot.cf_default) a.same_cfg in
      (
        record {
          same_cfg = a.same_cfg;
          no_lock = a.no_lock;
          started = a.started;
          defaults = e;
          entries = a.entries;
          ahead = a.ahead;
          front = a.front;
          suffix = a.suffix;
        },
        e,
      )

  load_value_from_default-At :
      (vs : List Version) (s : Scanner) (key : List ℕ) (ts : ℕ)
      → At cfg all vs s
      → At cfg all vs (load_value_from_default s key ts).0
        × ((load_value_from_default s key ts).1
            ≡ value_at (seek cfg.snapshot.cf_default (encode_key key ts)) key ts)
  unfolding load_value_from_default ensure_default_cursor seek_iterator
  load_value_from_default-At vs s key ts a =
      let (b, e) = open_default-At vs s s.default_cursor a a.defaults in
      (
        record {
          same_cfg = b.same_cfg;
          no_lock = b.no_lock;
          started = b.started;
          defaults = e;
          entries = b.entries;
          ahead = b.ahead;
          front = b.front;
          suffix = b.suffix;
        },
        ap (λ (es : Entries). value_at (seek es (encode_key key ts)) key ts) e,
      )

  read_put-At :
      (v : Version) (vs : List Version) (s : Scanner) (key : List ℕ) (ts : ℕ) (b : Bool)
      (o : Option (List ℕ))
      → At cfg all (v ∷ vs) s
      → v.key ≡ key
      → At cfg all (after_key vs key) (read_put s key ts b o).0
        × ((read_put s key ts b o).1 ≡ value_of cfg key ts b o)
  unfolding read_put value_of
  read_put-At v vs s key ts true o a k =
      (move_write_cursor_to_next_user_key-At h v vs s key a k, refl)
  read_put-At v vs s key ts false (some x) a k =
      (move_write_cursor_to_next_user_key-At h v vs s key a k, refl)
  read_put-At v vs s key ts false none a k =
      let (b, e) = load_value_from_default-At (v ∷ vs) s key ts a in
      (
        move_write_cursor_to_next_user_key-At h v vs (load_value_from_default s key ts).0 key b k,
        ap (loaded ts) e,
      )

  pub handle_put-At :
      (v : Version) (vs : List Version) (s : Scanner) (key : List ℕ) (w : Write) (c : ℕ)
      → At cfg all (v ∷ vs) s
      → v.key ≡ key
      → At cfg all (after_key vs key) (handle_put s key w).0
        × ((handle_put s key w).1 ≡ answer_of cfg key (some (w, c)))
  unfolding answer_of
  handle_put-At v vs s key w c a k =
      let (b, e) = read_put-At v vs s key w.start_ts s.cfg.key_only w.short_value a k in
      (
        b,
        e
            ∙ ap (λ (t : ScannerConfig). value_of cfg key w.start_ts t.key_only w.short_value)
                a.same_cfg,
      )
