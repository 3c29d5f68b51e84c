-- ===== src/Codec/Bytes/Canonical.antt =====
-- Which byte strings decode.
use gookv.Prelude.{
  ℕ, zero, suc, ◌-◌, ◌≤◌, ◌<◌, ◌≡◌, ◌∙◌, List, [], ◌∷◌, ◌++◌, arith, All, true, take, drop,
  append_assoc, ok, Bool-cases, inl, inr, ◌==◌,
}
use gookv.Codec.Bytes.{
  all_pad, encode_groups, encode_bytes, decode_final, decode_loop, decode_bytes,
}
use gookv.Codec.Bytes.RoundTrip.{IsByte}

final_group-take :
    (p : ℕ) (a b c d e f g h : ℕ)
    → p ≤ 7
    → all_pad (drop (7 - p) (a ∷ b ∷ c ∷ d ∷ e ∷ f ∷ g ∷ h ∷ [])) ≡ true
    → encode_groups (take (7 - p) (a ∷ b ∷ c ∷ d ∷ e ∷ f ∷ g ∷ h ∷ []))
      ≡ a ∷ b ∷ c ∷ d ∷ e ∷ f ∷ g ∷ h ∷ (254 - p) ∷ []
unfolding encode_groups all_pad
final_group-take zero a b c d e f g h le z = ground arith
final_group-take (suc zero) a b c d e f g h le z = ground arith
final_group-take (suc (suc zero)) a b c d e f g h le z = ground arith
final_group-take (suc (suc (suc zero))) a b c d e f g h le z = ground arith
final_group-take (suc (suc (suc (suc zero)))) a b c d e f g h le z = ground arith
final_group-take (suc (suc (suc (suc (suc zero))))) a b c d e f g h le z = ground arith
final_group-take (suc (suc (suc (suc (suc (suc zero)))))) a b c d e f g h le z = ground arith
final_group-take (suc (suc (suc (suc (suc (suc (suc zero))))))) a b c d e f g h le z = ground arith
final_group-take (suc (suc (suc (suc (suc (suc (suc (suc p)))))))) a b c d e f g h le z =
    absurd (omega arith)

-- A last group that `DecodeBytes` accepts is the one that `EncodeBytes` writes.
decode_final-canonical :
    (a b c d e f g h m : ℕ) (result rest k r : List ℕ)
    → m < 255
    → decode_final (a ∷ b ∷ c ∷ d ∷ e ∷ f ∷ g ∷ h ∷ []) m result rest ≡ ok (k, r)
    → (us : List ℕ) × (k ≡ result ++ us)
      × (r ≡ rest)
      × (encode_groups us ≡ a ∷ b ∷ c ∷ d ∷ e ∷ f ∷ g ∷ h ∷ m ∷ [])
decode_final-canonical a b c d e f g h m result rest k r lt eq = (
  take (8 - (255 - m)) (a ∷ b ∷ c ∷ d ∷ e ∷ f ∷ g ∷ h ∷ []),
  unfold decode_final in ground arith,
  unfold decode_final in ground arith,
  unfold decode_final in ground (arith, final_group-take (254 - m) a b c d e f g h),
)

decode_loop-canonical :
    (bytes result k r : List ℕ)
    → All IsByte bytes
    → decode_loop result bytes ≡ ok (k, r)
    → (us : List ℕ) × (k ≡ result ++ us) × (bytes ≡ encode_groups us ++ r)
unfolding decode_loop encode_groups
decode_loop-canonical (a ∷ b ∷ c ∷ d ∷ e ∷ f ∷ g ∷ h ∷ m ∷ rest) result k r p eq =
    let group : List ℕ = a ∷ b ∷ c ∷ d ∷ e ∷ f ∷ g ∷ h ∷ [] in
    elim (Bool-cases (m == 255)) [
      | inl full ↦
          let ih =
            decode_loop-canonical rest (result ++ group) k r (ground arith) (rw full at eq) in
          (group ++ ih.0, ih.1 ∙ append_assoc result group ih.0, ground (arith, ih.2))
      | inr last ↦
          let end =
            decode_final-canonical a b c d e f g h m result rest k r (ground arith)
              (rw last at eq) in
          (end.0, end.1, rw (end.3, end.2))
    ]
decode_loop-canonical _ result k r p eq = cc

-- If `DecodeBytes` accepts a string of bytes, that string is the encoding of the returned key with
-- the returned remainder behind it.
pub decode_bytes-canonical :
    (bytes key rest : List ℕ)
    → All IsByte bytes
    → decode_bytes bytes ≡ ok (key, rest)
    → bytes ≡ encode_bytes [] key ++ rest
unfolding decode_bytes encode_bytes
decode_bytes-canonical bytes key rest p eq =
    let (us, e, f) = decode_loop-canonical bytes [] key rest p eq in rw e f
