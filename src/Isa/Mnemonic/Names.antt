-- ===== src/Isa/Mnemonic/Names.antt =====
-- The texts of mnemonics: `str_to_mnemonic` reads what `Mnemonic::to_str` prints, and nothing else.
use smol_gpu.Prelude.{
  Bool, true, false, Option, none, some, ◌++◌, ◌∷◌, [], ◌≡◌, ◌↔◌, refl, sym, ◌∙◌, ap, inl, inr,
  arith, Bool-cases, Text, codes, equal, equal_iff, if◌then◌else◌,
}
use mathlib.Core.Option
use smol_gpu.Isa.Opcode.{starts_with_s, drop_two}
use smol_gpu.Isa.Mnemonic.{
  MnemonicName, lui, auipc, addi, slti, xori, ori, andi, slli, srli, srai, add, sub, sll, slt, xor,
  srl, sra, or, and, lb, lh, lw, sb, sh, sw, jal, jalr, beq, bne, blt, bge, halt, sx_slt, sx_slti,
  Mnemonic, str_to_mnemonic_name, to_string, to_str, str_to_mnemonic,
}

-- Every mnemonic is read back from its text, with its prefix.
pub str_to_mnemonic-to_str : (m : Mnemonic) → str_to_mnemonic (to_str m) ≡ some m
unfolding str_to_mnemonic to_str starts_with_s drop_two
str_to_mnemonic-to_str m = by_name m.name m.has_s_prefix
  where
    by_name :
        (n : MnemonicName) (b : Bool)
        → str_to_mnemonic (to_str (record { name = n; has_s_prefix = b }))
          ≡ some (record { name = n; has_s_prefix = b })
    by_name lui true = refl
    by_name lui false = refl
    by_name _ true = refl
    by_name _ false = refl

map-eq_some :
    {A B : Type 0} (f : A → B) (o : Option A) {b : B}
    → Option.map f o ≡ some b
    → (a : A) × (o ≡ some a) × (f a ≡ b)
map-eq_some f none h = cc
map-eq_some f (some a) h = (a, refl, cc)

-- One rung of the ladder of comparisons.
ladder_step :
    (s : Text) (n : MnemonicName) {rest : Option MnemonicName} {m : MnemonicName}
    → (rest ≡ some m → s ≡ to_string m)
    → (if equal s (to_string n) then some n else rest) ≡ some m
    → s ≡ to_string m
ladder_step s n h e = elim (Bool-cases (equal s (to_string n))) [
  | inl same ↦ (equal_iff s (to_string n)).0 same ∙ ap to_string (cc (rw same at e))
  | inr other ↦ h (rw other at e)
]

str_to_mnemonic_name-eq_some :
    (name : Text) {m : MnemonicName} → str_to_mnemonic_name name ≡ some m → name ≡ to_string m
unfolding str_to_mnemonic_name to_string
str_to_mnemonic_name-eq_some name =
    (ladder_step name lui (
      ladder_step name auipc (
        ladder_step name addi (
          ladder_step name slti (
            ladder_step name xori (
              ladder_step name ori (
                ladder_step name andi (
                  ladder_step name slli (
                    ladder_step name srli (
                      ladder_step name srai (
                        ladder_step name add (
                          ladder_step name sub (
                            ladder_step name sll (
                              ladder_step name slt (
                                ladder_step name xor (
                                  ladder_step name srl (
                                    ladder_step name sra (
                                      ladder_step name or (
                                        ladder_step name and (
                                          ladder_step name lb (
                                            ladder_step name lh (
                                              ladder_step name lw (
                                                ladder_step name sb (
                                                  ladder_step name sh (
                                                    ladder_step name sw (
                                                      ladder_step name jal (
                                                        ladder_step name jalr (
                                                          ladder_step name beq (
                                                            ladder_step name bne (
                                                            ladder_step name blt (
                                                            ladder_step name bge (
                                                            ladder_step name halt (
                                                            ladder_step name sx_slt (
                                                            ladder_step name sx_slti (λ h.
                                                            cc)))))))))))))))))))))))))))))))))))

starts_with_s-eq_true : (s : Text) → starts_with_s s ≡ true → s ≡ codes "s." ++ drop_two s
unfolding starts_with_s drop_two
starts_with_s-eq_true [] h = cc
starts_with_s-eq_true (a ∷ []) h = cc
starts_with_s-eq_true (a ∷ b ∷ rest) h = ground arith

-- A text that is read as a mnemonic is that mnemonic's text.
pub to_str-str_to_mnemonic : (s : Text) {m : Mnemonic} → str_to_mnemonic s ≡ some m → to_str m ≡ s
unfolding str_to_mnemonic to_str
to_str-str_to_mnemonic s {m} h = elim (Bool-cases (starts_with_s s)) [
  | inl scalar ↦
      let (n, found, e) = map-eq_some _ (str_to_mnemonic_name (drop_two s)) (rw scalar at h) in
      ap to_str (sym e)
      ∙ ap (λ t. codes "s." ++ t) (sym (str_to_mnemonic_name-eq_some (drop_two s) found))
      ∙ sym (starts_with_s-eq_true s scalar)
  | inr vector ↦
      let (n, found, e) = map-eq_some _ (str_to_mnemonic_name s) (rw vector at h) in
      ap to_str (sym e) ∙ sym (str_to_mnemonic_name-eq_some s found)
]

-- A text is read as the mnemonic `m` exactly when it is what `Mnemonic::to_str` prints for `m`.
pub str_to_mnemonic_iff : (s : Text) (m : Mnemonic) → (str_to_mnemonic s ≡ some m) ↔ (s ≡ to_str m)
str_to_mnemonic_iff s m =
    (λ h. sym (to_str-str_to_mnemonic s h), λ h. ap str_to_mnemonic h ∙ str_to_mnemonic-to_str m)
