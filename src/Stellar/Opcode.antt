-- ===== src/Stellar/Opcode.antt =====
-- The opcodes of include/stellar/stellar.h, and the dispatch table of `vm_run`.
use mathlib.Core.Option.{some-injective}
use nova64_os.Base.{
  ℕ, zero, suc, ◌+◌, ◌≡◌, ◌↔◌, refl, arith, ap, List, [], ◌∷◌, Option, some, get_elem?,
}

pub data Op : Type 0 where
  halt push add sub mul div print store load cmp_eq cmp_lt cmp_gt jz jmp mod_op cmp_gte cmp_lte
        cmp_neq else_op else_if push_str print_str array_make array_get array_set input inc dec
        add_var add_const sub_var sub_const mul_var mul_const store_i load_i inc_i dec_i add_var_i
        add_const_i sub_var_i sub_const_i mul_var_i mul_const_i :
      Op

-- The label at each index, from 0x00 to 0x2B.
abbrev pub dispatch_table : List Op
dispatch_table =
    halt ∷ push ∷ add ∷ sub ∷ mul ∷ div ∷ print ∷ store ∷ load ∷ cmp_eq ∷ cmp_lt ∷ cmp_gt ∷ jz ∷ jmp
    ∷ mod_op ∷ cmp_gte ∷ cmp_lte ∷ cmp_neq ∷ else_op ∷ else_if ∷ push_str ∷ print_str ∷ array_make
    ∷ array_get ∷ array_set ∷ input ∷ inc ∷ dec ∷ add_var ∷ add_const ∷ sub_var ∷ sub_const
    ∷ mul_var ∷ mul_const ∷ store_i ∷ load_i ∷ inc_i ∷ dec_i ∷ add_var_i ∷ add_const_i ∷ sub_var_i
    ∷ sub_const_i ∷ mul_var_i ∷ mul_const_i ∷ []

-- A byte past the table is a jump through memory that is no table entry: `none`.
abbrev pub decode : ℕ → Option Op
decode byte = get_elem? dispatch_table byte

-- The code that the header gives each name.
unfoldable pub opcode : Op → ℕ
opcode halt = 0x00
opcode push = 0x01
opcode add = 0x02
opcode sub = 0x03
opcode mul = 0x04
opcode div = 0x05
opcode print = 0x06
opcode store = 0x07
opcode load = 0x08
opcode cmp_eq = 0x09
opcode cmp_lt = 0x0A
opcode cmp_gt = 0x0B
opcode jz = 0x0C
opcode jmp = 0x0D
opcode mod_op = 0x0E
opcode cmp_gte = 0x0F
opcode cmp_lte = 0x10
opcode cmp_neq = 0x11
opcode else_op = 0x12
opcode else_if = 0x13
opcode push_str = 0x14
opcode print_str = 0x15
opcode array_make = 0x16
opcode array_get = 0x17
opcode array_set = 0x18
opcode input = 0x19
opcode inc = 0x1A
opcode dec = 0x1B
opcode add_var = 0x1C
opcode add_const = 0x1D
opcode sub_var = 0x1E
opcode sub_const = 0x1F
opcode mul_var = 0x20
opcode mul_const = 0x21
opcode store_i = 0x22
opcode load_i = 0x23
opcode inc_i = 0x24
opcode dec_i = 0x25
opcode add_var_i = 0x26
opcode add_const_i = 0x27
opcode sub_var_i = 0x28
opcode sub_const_i = 0x29
opcode mul_var_i = 0x2A
opcode mul_const_i = 0x2B

pub decode-opcode : (op : Op) → decode (opcode op) ≡ some op
unfolding opcode
decode-opcode halt = refl
decode-opcode push = refl
decode-opcode add = refl
decode-opcode sub = refl
decode-opcode mul = refl
decode-opcode div = refl
decode-opcode print = refl
decode-opcode store = refl
decode-opcode load = refl
decode-opcode cmp_eq = refl
decode-opcode cmp_lt = refl
decode-opcode cmp_gt = refl
decode-opcode jz = refl
decode-opcode jmp = refl
decode-opcode mod_op = refl
decode-opcode cmp_gte = refl
decode-opcode cmp_lte = refl
decode-opcode cmp_neq = refl
decode-opcode else_op = refl
decode-opcode else_if = refl
decode-opcode push_str = refl
decode-opcode print_str = refl
decode-opcode array_make = refl
decode-opcode array_get = refl
decode-opcode array_set = refl
decode-opcode input = refl
decode-opcode inc = refl
decode-opcode dec = refl
decode-opcode add_var = refl
decode-opcode add_const = refl
decode-opcode sub_var = refl
decode-opcode sub_const = refl
decode-opcode mul_var = refl
decode-opcode mul_const = refl
decode-opcode store_i = refl
decode-opcode load_i = refl
decode-opcode inc_i = refl
decode-opcode dec_i = refl
decode-opcode add_var_i = refl
decode-opcode add_const_i = refl
decode-opcode sub_var_i = refl
decode-opcode sub_const_i = refl
decode-opcode mul_var_i = refl
decode-opcode mul_const_i = refl

-- The table, from entry `k` on, has the labels whose codes are `k` and up.
abbrev InOrder : ℕ → List Op → Type 0
InOrder k [] = Unit
InOrder k (op ∷ ops) = (opcode op ≡ k) × InOrder (k + 1) ops

in_order : InOrder 0 dispatch_table
unfolding opcode
in_order = omega arith

InOrder-get_elem? :
    (ops : List Op) (k i : ℕ) {op : Op}
    → InOrder k ops
    → get_elem? ops i ≡ some op
    → opcode op ≡ k + i
InOrder-get_elem? [] k i h e = cc
InOrder-get_elem? (o ∷ ops) k zero h e = let same = ap opcode (some-injective _ _ e) in omega arith
InOrder-get_elem? (o ∷ ops) k (suc i) h e =
    let later = InOrder-get_elem? ops (k + 1) i h.1 e in omega arith

opcode-decode : (byte : ℕ) (op : Op) → decode byte ≡ some op → byte ≡ opcode op
opcode-decode byte op h = let e = InOrder-get_elem? dispatch_table 0 byte in_order h in omega arith

-- The header and the dispatch table agree: the label at each named code is that of the name, and a
-- byte that has a label is the code of its name.
pub decode-opcode_iff : (op : Op) (byte : ℕ) → (decode byte ≡ some op) ↔ (byte ≡ opcode op)
decode-opcode_iff op byte = (λ h. opcode-decode byte op h, λ h. rw h (decode-opcode op))
