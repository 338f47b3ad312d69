-- ===== src/Mmu/Mapping.antt =====
-- The two maps of src/c64/mmu.cpp against the truth table of the programmable logic array, and what
-- the processor then reads and writes.
use mathlib.Core.Path.{subst}
use libsidplayfp.Base.{
  ap₂, ℕ, zero, suc, ◌+◌, ◌/◌, ◌^◌, ◌<◌, ◌≡◌, refl, sym, ap, ◌∙◌, arith, Bool, true, false, ◌&&◌,
  ◌||◌, ◌==◌, ◌!=◌, if◌then◌else◌, List, [], ◌∷◌, get_or, leb,
}
use libsidplayfp.Banks.Ram.{reset_ram}
use libsidplayfp.Banks.Port.{Port, reset_port, cpu_port}
use libsidplayfp.Mmu.{
  ReadBank, reads_zero, reads_ram, reads_kernal, reads_basic, reads_character, reads_io, WriteBank,
  writes_zero, writes_ram, writes_io, Mmu, Io, put_port, constructed, update_mapping, set_cpu_port,
  get_last_read_byte, poke_port, poke_zero, reset_mmu, read_bank, write_bank, cpu_read, cpu_write,
  peek_zero,
}

-- The bank that the array selects for a page of 4 KB, from the lines of the port.
unfoldable pub pla_read : (loram hiram charen : Bool) → ℕ → ReadBank
pla_read loram hiram charen page =
    if page == 0
    then reads_zero
    else if (page == 0xa) || (page == 0xb)
    then if loram && hiram then reads_basic else reads_ram
    else if page == 0xd
    then if loram || hiram then if charen then reads_io else reads_character else reads_ram
    else if leb 0xe page
    then if hiram then reads_kernal else reads_ram
    else reads_ram

unfoldable pub pla_write : (loram hiram charen : Bool) → ℕ → WriteBank
pla_write loram hiram charen page =
    if page == 0
    then writes_zero
    else if (page == 0xd) && charen && (loram || hiram)
    then writes_io
    else writes_ram

-- The values of a function from `i` on, as a list.
abbrev pub tabulate : {A : Type 0} → ℕ → ℕ → (ℕ → A) → List A
tabulate zero i f = []
tabulate (suc n) i f = f i ∷ tabulate n (suc i) f

pub get_or-tabulate :
    {A : Type 0} (n i k : ℕ) (f : ℕ → A) (d : A) → k < n → get_or (tabulate n i f) k d ≡ f (i + k)
get_or-tabulate zero i k f d h = absurd (omega arith)
get_or-tabulate (suc n) i zero f d h = ap f (omega arith)
get_or-tabulate (suc n) i (suc k) f d h =
    get_or-tabulate n (suc i) k f d (omega arith) ∙ ap f (omega arith)

module _ {S : Type 0} where
  -- Both maps are those of the array, for the lines that the MMU holds.
  pub record IsMapped (m : Mmu S) : Type 0 where
    pub reads : m.cpu_read_map ≡ tabulate 16 0 (pla_read m.loram m.hiram m.charen)
    pub writes : m.cpu_write_map ≡ tabulate 16 0 (pla_write m.loram m.hiram m.charen)

  -- An MMU with the maps of lines `a`, `b` and `c`, before its new lines are taken into the maps.
  abbrev between : Mmu S → (a b c l h n : Bool) → Mmu S
  between m a b c l h n = record m {
    loram = l;
    hiram = h;
    charen = n;
    cpu_read_map = tabulate 16 0 (pla_read a b c);
    cpu_write_map = tabulate 16 0 (pla_write a b c);
  }

  between-IsMapped :
      (m : Mmu S) (a b c l h n : Bool) → IsMapped (update_mapping (between m a b c l h n))
  unfolding update_mapping pla_read pla_write
  between-IsMapped m a b c true true true = record { reads = refl; writes = refl }
  between-IsMapped m a b c true true false = record { reads = refl; writes = refl }
  between-IsMapped m a b c true false true = record { reads = refl; writes = refl }
  between-IsMapped m a b c true false false = record { reads = refl; writes = refl }
  between-IsMapped m a b c false true true = record { reads = refl; writes = refl }
  between-IsMapped m a b c false true false = record { reads = refl; writes = refl }
  between-IsMapped m a b c false false true = record { reads = refl; writes = refl }
  between-IsMapped m a b c false false false = record { reads = refl; writes = refl }

  update_mapping-IsMapped :
      (m : Mmu S) (a b c : Bool)
      → m.cpu_read_map ≡ tabulate 16 0 (pla_read a b c)
      → m.cpu_write_map ≡ tabulate 16 0 (pla_write a b c)
      → IsMapped (update_mapping m)
  update_mapping-IsMapped m a b c reads writes =
      subst (λ (x : Mmu S). IsMapped (update_mapping x))
        {x = between m a b c m.loram m.hiram m.charen} {y = m}
        (ap₂
          (λ (xs : List ReadBank) (ys : List WriteBank). record m {
            cpu_read_map = xs;
            cpu_write_map = ys;
          })
          (sym reads) (sym writes))
        (between-IsMapped m a b c m.loram m.hiram m.charen)

  -- Writing the port's lines keeps the maps equal to the array's truth table.
  pub set_cpu_port-IsMapped : (state : ℕ) (m : Mmu S) → IsMapped m → IsMapped (set_cpu_port state m)
  unfolding set_cpu_port
  set_cpu_port-IsMapped state m mapped =
      update_mapping-IsMapped _ m.loram m.hiram m.charen mapped.reads mapped.writes

  chosen : (b : Bool) (x y : Mmu S) → IsMapped x → IsMapped y → IsMapped (if b then x else y)
  chosen true x y p q = p
  chosen false x y p q = q

  pub reset_mmu-IsMapped : (m : Mmu S) → IsMapped m → IsMapped (reset_mmu m)
  unfolding reset_mmu set_cpu_port
  reset_mmu-IsMapped m mapped =
      let p = reset_port m.port in
      let m1 : Mmu S = set_cpu_port (cpu_port p) (record m { port = p; ram = reset_ram m.ram }) in
      let mapped1 : IsMapped m1 =
        set_cpu_port-IsMapped _ _ (record { reads = mapped.reads; writes = mapped.writes }) in
      update_mapping-IsMapped _ m1.loram m1.hiram m1.charen mapped1.reads mapped1.writes

  poke_port-IsMapped :
      (address value : ℕ) (m : Mmu S) → IsMapped m → IsMapped (poke_port address value m)
  unfolding poke_port
  poke_port-IsMapped address value m mapped =
      let through : (p : Port) → IsMapped (put_port p m) =
        λ p. set_cpu_port-IsMapped _ _ (record { reads = mapped.reads; writes = mapped.writes }) in
      chosen (address == 0) _ _ (chosen (m.port.dir != value) _ _ (through _) mapped) (
        chosen (m.port.latch != value) _ _ (through _)
          (record { reads = mapped.reads; writes = mapped.writes }))

  poke_zero-IsMapped :
      (address value : ℕ) (m : Mmu S) → IsMapped m → IsMapped (poke_zero address value m)
  unfolding poke_zero get_last_read_byte
  poke_zero-IsMapped address value m mapped =
      let mapped' = poke_port-IsMapped address value m mapped in
      chosen ((address == 0) || (address == 1)) _ _
        (record { reads = mapped'.reads; writes = mapped'.writes })
        (record { reads = mapped.reads; writes = mapped.writes })

-- What the chips of the IO region may do to the maps: nothing.
module _ {S : Type 0} (io : Io S)
    (io_poke-IsMapped : (address value : ℕ) (m : Mmu S)
      → IsMapped m
      → IsMapped (io.io_poke address value m)) where
  -- A write of the processor keeps the maps equal to the truth table of the logic array, whatever
  -- bank it goes to, when the chips of the IO region keep them.
  pub cpu_write-IsMapped :
      (address value : ℕ) (m : Mmu S) → IsMapped m → IsMapped (cpu_write io address value m)
  unfolding cpu_write write_bank
  cpu_write-IsMapped address value m mapped =
      elim (get_or m.cpu_write_map (address / 2 ^ 12) writes_ram)
        as (λ b. IsMapped (write_bank io b address value m)) [
          | writes_zero ↦ poke_zero-IsMapped address value m mapped
          | writes_ram ↦ record { reads = mapped.reads; writes = mapped.writes }
          | writes_io ↦ io_poke-IsMapped address value m mapped
        ]

-- `Bank::peek` and `poke` of the parameter keep the maps: no chip of the IO region reaches them.
module _ {S : Type 0} (io : Io S)
    (io_poke-IsMapped : (address value : ℕ) (m : Mmu S)
      → IsMapped m
      → IsMapped (io.io_poke address value m))
    (io_peek-IsMapped : (address : ℕ) (m : Mmu S)
      → IsMapped m
      → IsMapped (io.io_peek address m).1) where
  picked :
      (b : Bool) (x y : ℕ × Mmu S) → IsMapped x.1 → IsMapped y.1 → IsMapped (if b then x else y).1
  picked true x y p q = p
  picked false x y p q = q

  cpu_read-IsMapped : (address : ℕ) (m : Mmu S) → IsMapped m → IsMapped (cpu_read io address m).1
  unfolding cpu_read read_bank peek_zero
  cpu_read-IsMapped address m mapped =
      let kept : IsMapped m = mapped in
      elim (get_or m.cpu_read_map (address / 2 ^ 12) reads_ram)
        as (λ b. IsMapped (read_bank io b address m).1) [
          | reads_zero ↦ picked (address == 0) _ _ kept (
              picked (address == 1) _ _ (record { reads = mapped.reads; writes = mapped.writes })
                kept)
          | reads_ram ↦ kept
          | reads_kernal ↦ kept
          | reads_basic ↦ kept
          | reads_character ↦ kept
          | reads_io ↦ io_peek-IsMapped address m mapped
        ]

  -- What a machine does with its MMU.
  pub data Step : Mmu S → Mmu S → Type 0 where
    resets : (m : Mmu S) → Step m (reset_mmu m)
    reads_byte : (address : ℕ) (m : Mmu S) → Step m (cpu_read io address m).1
    writes_byte : (address value : ℕ) (m : Mmu S) → Step m (cpu_write io address value m)

  pub data Reaches : Mmu S → Mmu S → Type 0 where
    here : (m : Mmu S) → Reaches m m
    then_step : {m n o : Mmu S} → Reaches m n → Step n o → Reaches m o

  Step-IsMapped : {m n : Mmu S} → Step m n → IsMapped m → IsMapped n
  Step-IsMapped (resets m) mapped = reset_mmu-IsMapped m mapped
  Step-IsMapped (reads_byte address m) mapped = cpu_read-IsMapped address m mapped
  Step-IsMapped (writes_byte address value m) mapped =
      cpu_write-IsMapped io io_poke-IsMapped address value m mapped

  Reaches-IsMapped : {m n : Mmu S} → Reaches m n → IsMapped m → IsMapped n
  Reaches-IsMapped (here m) mapped = mapped
  Reaches-IsMapped (then_step r s) mapped = Step-IsMapped s (Reaches-IsMapped r mapped)

  -- In every state that a new MMU reaches by resets, reads and writes, both maps are those of the
  -- truth table of the logic array, when the chips of the IO region leave the maps alone.
  pub new_mmu-IsMapped : (m : Mmu S) {n : Mmu S} → Reaches (constructed m) n → IsMapped n
  unfolding constructed pla_read pla_write
  new_mmu-IsMapped m r = Reaches-IsMapped r (record { reads = refl; writes = refl })
