-- ===== src/IoArea/Wiring.antt =====
-- The pages of the IO region and the extra SID banks of src/c64/c64.cpp, which stay in step.
use mathlib.Core.Path.{subst}
use libsidplayfp.Base.{
  ℕ, ◌/◌, ◌^◌, ◌≡◌, ◌≢◌, refl, sym, ap, ◌∙◌, arith, bit_and, Bool, true, false, ◌&&◌, ◌||◌, ◌==◌,
  ◌!=◌, ltb, Bool-cases, if◌then◌else◌, Option, none, some, List, [], ◌∷◌, inl, inr, Option-cases,
}
use libsidplayfp.IoArea.{
  Sid, to_extra, ExtraSidBank, IoArea, reset_sid_mapper, add_sid, find, update, set_bank,
  reset_io_bank, clear_sids, put_bank, put_extra_sid, add_extra_sid,
}

-- The pages with an extra bank are those of the list.
pub record IsWired (io : IoArea) : Type 0 where
  pub present :
      (i : ℕ) (b : ExtraSidBank) → find i io.extra_sid_banks ≡ some b → io.map i ≡ to_extra i
  pub known :
      (i j : ℕ)
      → io.map i ≡ to_extra j
      → (i ≡ j) × ((b : ExtraSidBank) × (find i io.extra_sid_banks ≡ some b))

pub none≢some : {b : ExtraSidBank} → none ≢ some b
none≢some e = ground (arith, e)

pub find-update_self :
    (idx : ℕ) (f : ExtraSidBank → ExtraSidBank) (banks : List (ℕ × ExtraSidBank)) (b : ExtraSidBank)
    → find idx banks ≡ some b
    → find idx (update idx f banks) ≡ some (f b)
unfolding find update
find-update_self idx f [] b h = absurd (none≢some h)
find-update_self idx f ((j, c) ∷ banks) b h =
    elim (idx == j)
        as (λ t.
          (if t then some c else find idx banks) ≡ some b
          → (idx == j) ≡ t
          → find idx (if t then (j, f c) ∷ banks else (j, c) ∷ update idx f banks) ≡ some (f b)) [
            | true ↦ λ found same. ground (arith, same, found)
            | false ↦ λ found other. ground (arith, other, find-update_self idx f banks b found)
          ]
      h refl

pub find-update_ne :
    (idx i : ℕ) (f : ExtraSidBank → ExtraSidBank) (banks : List (ℕ × ExtraSidBank))
    → i ≢ idx
    → find i (update idx f banks) ≡ find i banks
unfolding find update
find-update_ne idx i f [] h = refl
find-update_ne idx i f ((j, c) ∷ banks) h = ground (arith, find-update_ne idx i f banks h)

pub find_head :
    (idx : ℕ) (b : ExtraSidBank) (banks : List (ℕ × ExtraSidBank))
    → find idx ((idx, b) ∷ banks) ≡ some b
unfolding find
find_head idx b banks = ground arith

pub find_tail :
    (idx i : ℕ) (b : ExtraSidBank) (banks : List (ℕ × ExtraSidBank))
    → i ≢ idx
    → find i ((idx, b) ∷ banks) ≡ find i banks
unfolding find
find_tail idx i b banks h = ground arith

pub clear_sids-IsWired : (io : IoArea) → IsWired (clear_sids io)
unfolding clear_sids reset_io_bank find
clear_sids-IsWired io = record {
  present = λ i b e. absurd (none≢some e);
  known = λ i j e. absurd (ground (arith, e));
}

find-update_none :
    (idx i : ℕ) (f : ExtraSidBank → ExtraSidBank) (banks : List (ℕ × ExtraSidBank))
    (b b' : ExtraSidBank)
    → find idx banks ≡ some b
    → find i (update idx f banks) ≡ some b'
    → (b'' : ExtraSidBank) × (find i banks ≡ some b'')
find-update_none idx i f banks b b' found e = elim (Bool-cases (i == idx)) [
  | inl same ↦ (b, ap (λ (n : ℕ). find n banks) {x = i} {y = idx} (ground (arith, same)) ∙ found)
  | inr other ↦ (b', sym (find-update_ne idx i f banks (ground (arith, other))) ∙ e)
]

new_bank-IsWired :
    (s : Sid) (address idx : ℕ) (io : IoArea)
    → IsWired io
    → IsWired (put_bank s address idx io none)
unfolding put_bank set_bank
new_bank-IsWired s address idx io wired =
    let b = add_sid s address (reset_sid_mapper (io.map idx)) in
    let banks = io.extra_sid_banks in
    record {
      present = λ i c e. elim (Bool-cases (i == idx)) [
        | inl same ↦ ground (arith, same)
        | inr other ↦ ground (
          arith,
          other,
          wired.present i c (sym (find_tail idx i b banks (ground (arith, other))) ∙ e),
        )
      ];
      known = λ i j e. elim (Bool-cases (i == idx)) [
        | inl same ↦
            let at : idx ≡ i = ground (arith, same) in
            (
              ground (arith, same, e),
              (b, ap (λ (n : ℕ). find n ((idx, b) ∷ banks)) (sym at) ∙ find_head idx b banks),
            )
        | inr other ↦
            let before = wired.known i j (ground (arith, other, e)) in
            (before.0, (before.1.0, find_tail idx i b banks (ground (arith, other)) ∙ before.1.1))
      ];
    }

old_bank-IsWired :
    (s : Sid) (address idx : ℕ) (io : IoArea) (b : ExtraSidBank)
    → IsWired io
    → find idx io.extra_sid_banks ≡ some b
    → IsWired (put_bank s address idx io (some b))
unfolding put_bank
old_bank-IsWired s address idx io b wired old =
    let f = add_sid s address in
    let banks = io.extra_sid_banks in
    record {
      present = λ i c e.
          let before = find-update_none idx i f banks b c old e in
          wired.present i before.0 before.1;
      known = λ i j e.
          let before = wired.known i j e in
          (
            before.0,
            elim (Bool-cases (i == idx)) [
              | inl same ↦
                  let at : idx ≡ i = ground (arith, same) in
                  (
                    f b,
                    ap (λ (n : ℕ). find n (update idx f banks)) (sym at)
                        ∙ find-update_self idx f banks b old,
                  )
              | inr other ↦
                  (before.1.0, find-update_ne idx i f banks (ground (arith, other)) ∙ before.1.1)
            ],
          );
    }

put_extra_sid-IsWired :
    (s : Sid) (address idx : ℕ) (io : IoArea)
    → IsWired io
    → IsWired (put_extra_sid s address idx io)
unfolding put_extra_sid
put_extra_sid-IsWired s address idx io wired = elim (Option-cases (find idx io.extra_sid_banks)) [
  | inl new ↦
      subst (λ (o : Option ExtraSidBank). IsWired (put_bank s address idx io o)) (sym new)
        (new_bank-IsWired s address idx io wired)
  | inr old ↦
      subst (λ (o : Option ExtraSidBank). IsWired (put_bank s address idx io o)) (sym old.1)
        (old_bank-IsWired s address idx io old.0 wired old.1)
]

chosen :
    (b : Bool) (x y : Bool × IoArea) → IsWired x.1 → IsWired y.1 → IsWired (if b then x else y).1
chosen true x y p q = p
chosen false x y p q = q

-- An extra SID keeps the pages and the list of extra banks in step.
pub add_extra_sid-IsWired :
    (s : Sid) (address : ℕ) (io : IoArea) → IsWired io → IsWired (add_extra_sid s address io).1
unfolding add_extra_sid
add_extra_sid-IsWired s address io wired =
    let idx = bit_and (address / 2 ^ 8) 0xf in
    chosen (bit_and address 0xf000 != 0xd000) _ _ wired (
      chosen (ltb idx 4 || (ltb 7 idx && ltb idx 0xe)) _ _ wired
        (put_extra_sid-IsWired s address idx io wired))
