-- ===== src/Drivers/Interrupts.antt =====
-- The interrupt table of utils/idt.c. The two stubs are addresses, and what the interrupt
-- controllers are told is the list of the ports and bytes written, in order.
use nova64_os.Base.{
  ℕ, zero, suc, ◌+◌, ◌*◌, ◌/◌, ◌%◌, ◌^◌, ◌≤◌, ◌<◌, ◌≡◌, refl, arith, ap, sym, ◌∙◌, Bool, true,
  false, ltb, leb, ◌==◌, ==_iff, ◌&&◌, ◌||◌, if◌then◌else◌, List, [], ◌∷◌, Bool-cases, inl, inr,
  bit_and, set, get_or, length, length-set, get_or-set_self, get_or-set_ne,
}
use nova64_os.Bits.{u8, ◌>>>◌}
use nova64_os.Bits.Masks.{bit_and-ones}

-- `struct idt_entry`.
pub record Gate : Type 0 where
  pub base_low : ℕ
  pub sel : ℕ
  pub ist : ℕ
  pub flags : ℕ
  pub base_mid : ℕ
  pub base_high : ℕ
  pub reserved : ℕ

unfoldable pub idt_set_gate : ℕ → ℕ → ℕ → ℕ → List Gate → List Gate
idt_set_gate num base sel flags idt = set idt num (record {
  base_low = bit_and base 0xFFFF;
  sel = sel;
  ist = 0;
  flags = flags;
  base_mid = bit_and (base >>> 16) 0xFFFF;
  base_high = bit_and (base >>> 32) 0xFFFFFFFF;
  reserved = 0;
})

-- `for (int i = 0; i < 256; i++)`, with the rounds left.
unfoldable pub clear_gates : ℕ → ℕ → List Gate → List Gate
unfolding idt_set_gate
clear_gates zero i idt = idt
clear_gates (suc n) i idt = clear_gates n (i + 1) (idt_set_gate (u8 i) 0 0 0 idt)

-- The remapping of the two controllers.
abbrev pub remap : List (ℕ × ℕ)
remap =
    (0x20, 0x11)
    ∷ (0xA0, 0x11)
    ∷ (0x21, 0x20)
    ∷ (0xA1, 0x28)
    ∷ (0x21, 0x04)
    ∷ (0xA1, 0x02)
    ∷ (0x21, 0x01)
    ∷ (0xA1, 0x01)
    ∷ (0x21, 0xFC)
    ∷ (0xA1, 0xFF)
    ∷ []

-- The table that is loaded, and the ports.
unfoldable pub idt_init : ℕ → ℕ → List Gate → List Gate × List (ℕ × ℕ)
unfolding clear_gates idt_set_gate
idt_init irq0_stub irq1_stub idt =
    let cleared = clear_gates 256 0 idt in
    (idt_set_gate 33 irq1_stub 0x08 0x8E (idt_set_gate 32 irq0_stub 0x08 0x8E cleared), remap)

-- The address that the processor reads from a gate.
abbrev pub address : Gate → ℕ
address g = g.base_low + g.base_mid * 2 ^ 16 + g.base_high * 2 ^ 32

abbrev pub empty_gate : Gate
empty_gate = record {
  base_low = 0;
  sel = 0;
  ist = 0;
  flags = 0;
  base_mid = 0;
  base_high = 0;
  reserved = 0;
}

-- The gate that `idt_set_gate` writes.
gate : ℕ → ℕ → ℕ → Gate
gate base sel flags = record {
  base_low = bit_and base 0xFFFF;
  sel = sel;
  ist = 0;
  flags = flags;
  base_mid = bit_and (base >>> 16) 0xFFFF;
  base_high = bit_and (base >>> 32) 0xFFFFFFFF;
  reserved = 0;
}

address-gate : (base sel flags : ℕ) → base < 2 ^ 64 → address (gate base sel flags) ≡ base
unfolding gate
address-gate base sel flags small =
    omega (
      arith,
      bit_and-ones 16 base,
      bit_and-ones 16 (base / 2 ^ 16),
      bit_and-ones 32 (base / 2 ^ 32),
    )

length-clear_gates : (n i : ℕ) (idt : List Gate) → length (clear_gates n i idt) ≡ length idt
unfolding clear_gates idt_set_gate
length-clear_gates zero i idt = refl
length-clear_gates (suc n) i idt =
    length-clear_gates n (i + 1) (idt_set_gate (u8 i) 0 0 0 idt) ∙ length-set idt (u8 i) empty_gate

get_or-set :
    (idt : List Gate) (i j : ℕ) (g : Gate)
    → i < length idt
    → get_or (set idt i g) j empty_gate ≡ (if j == i then g else get_or idt j empty_gate)
get_or-set idt i j g lt = elim (Bool-cases (j == i)) [
  | inl same ↦
      let at : j ≡ i = (==_iff j i).0 same in rw (same, at) (get_or-set_self idt i g empty_gate lt)
  | inr other ↦ rw other (get_or-set_ne idt i j g empty_gate (λ e. absurd (ground (arith, sym e))))
]

get_or-clear_gates :
    (n i : ℕ) (idt : List Gate) (j : ℕ)
    → length idt ≡ 256
    → i + n ≤ 256
    → get_or (clear_gates n i idt) j empty_gate
      ≡ (if leb i j && ltb j (i + n) then empty_gate else get_or idt j empty_gate)
unfolding clear_gates idt_set_gate
get_or-clear_gates zero i idt j sized fits = ground arith
get_or-clear_gates (suc n) i idt j sized fits =
    let byte : i % 2 ^ 8 ≡ i = omega arith in
    let written = get_or-set idt i j empty_gate (omega arith) in
    let ih =
      get_or-clear_gates n (i + 1) (set idt i empty_gate) j (length-set idt i empty_gate ∙ sized)
        (omega arith) in
    ap (λ (k : ℕ). get_or (clear_gates n (i + 1) (set idt k empty_gate)) j empty_gate) byte
    ∙ ih
    ∙ ground (arith, written)

-- The table after the two stubs are set in a table of empty gates.
stubs_lem :
    (s0 s1 : ℕ) (cleared : List Gate) (j : ℕ)
    → s0 < 2 ^ 64
    → s1 < 2 ^ 64
    → length cleared ≡ 256
    → get_or cleared j empty_gate ≡ empty_gate
    → let idt : List Gate = idt_set_gate 33 s1 0x08 0x8E (idt_set_gate 32 s0 0x08 0x8E cleared) in
      (address (get_or idt j empty_gate) ≡ (if j == 32 then s0 else if j == 33 then s1 else 0))
      × ((get_or idt j empty_gate).flags ≡ (if j == 32 || j == 33 then 0x8E else 0))
unfolding idt_set_gate gate
stubs_lem s0 s1 cleared j small0 small1 sized blank =
    let g0 : Gate = gate s0 0x08 0x8E in
    let g1 : Gate = gate s1 0x08 0x8E in
    let found : get_or (set (set cleared 32 g0) 33 g1) j empty_gate
        ≡ (if j == 33 then g1 else if j == 32 then g0 else empty_gate) =
      get_or-set (set cleared 32 g0) 33 j g1 (omega (arith, length-set cleared 32 g0, sized))
      ∙ ap (λ (g : Gate). if j == 33 then g1 else g)
          (get_or-set cleared 32 j g0 (omega (arith, sized))
            ∙ ap (λ (g : Gate). if j == 32 then g0 else g) blank) in
    let a0 : address g0 ≡ s0 = address-gate s0 0x08 0x8E small0 in
    let a1 : address g1 ≡ s1 = address-gate s1 0x08 0x8E small1 in
    (
      ap address found ∙ addresses (j == 32) (j == 33) g0 g1 a0 a1 (ground arith),
      ap (λ (g : Gate). g.flags) found ∙ present (j == 32) (j == 33) g0 g1 refl refl,
    )
  where
    addresses :
        (p q : Bool) (g0 g1 : Gate)
        → address g0 ≡ s0
        → address g1 ≡ s1
        → (p && q) ≡ false
        → address (if q then g1 else if p then g0 else empty_gate)
          ≡ (if p then s0 else if q then s1 else 0)
    addresses true true g0 g1 a0 a1 h = cc
    addresses true false g0 g1 a0 a1 h = a0
    addresses false true g0 g1 a0 a1 h = a1
    addresses false false g0 g1 a0 a1 h = refl

    present :
        (p q : Bool) (g0 g1 : Gate)
        → g0.flags ≡ 0x8E
        → g1.flags ≡ 0x8E
        → (if q then g1 else if p then g0 else empty_gate).flags ≡ (if p || q then 0x8E else 0)
    present true true g0 g1 f0 f1 = f1
    present true false g0 g1 f0 f1 = f0
    present false true g0 g1 f0 f1 = f1
    present false false g0 g1 f0 f1 = refl

cleared_all :
    (n : ℕ) (idt : List Gate) (j : ℕ)
    → n ≡ 256
    → length idt ≡ 256
    → j < 256
    → get_or (clear_gates n 0 idt) j empty_gate ≡ empty_gate
cleared_all n idt j all sized lt = get_or-clear_gates n 0 idt j sized (omega arith) ∙ ground arith

-- What the processor finds in the table that `idt_init` loads: the addresses of the two stubs behind
-- the vectors 32 and 33, as present interrupt gates, and not a present gate behind any other vector.
pub idt_init_lem :
    (irq0_stub irq1_stub : ℕ) (idt : List Gate) (j : ℕ)
    → irq0_stub < 2 ^ 64
    → irq1_stub < 2 ^ 64
    → length idt ≡ 256
    → j < 256
    → let g : Gate = get_or (idt_init irq0_stub irq1_stub idt).0 j empty_gate in
      (address g ≡ (if j == 32 then irq0_stub else if j == 33 then irq1_stub else 0))
      × (g.flags ≡ (if j == 32 || j == 33 then 0x8E else 0))
unfolding idt_init idt_set_gate
idt_init_lem irq0_stub irq1_stub idt j small0 small1 sized lt =
    stubs_lem irq0_stub irq1_stub (clear_gates 256 0 idt) j small0 small1
      (length-clear_gates 256 0 idt ∙ sized) (cleared_all 256 idt j refl sized lt)
