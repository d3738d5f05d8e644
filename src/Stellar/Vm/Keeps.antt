-- ===== src/Stellar/Vm/Keeps.antt =====
-- An invariant of the machine, and the rule by which a chain of operations keeps it.
use mathlib.Core.Option
use nova64_os.Base.{ℕ, zero, suc, ◌+◌, ◌^◌, ◌≤◌, ◌<◌, ◌≡◌, refl, arith, ◌∙◌}
use nova64_os.Base.{
  List, [], ◌∷◌, Option, none, some, All, All-set, length, length-set, All-get_elem?,
}
use nova64_os.Base.{get_elem?, ltb, ◌==◌}
use nova64_os.Base.{if_both, ltb→lt, set}
use nova64_os.Stellar.Vm.{Vm, M, pure, ◌>>=◌, of_option, fetch}
use nova64_os.Stellar.Vm.{jump, pop, pop_at, push_value, variable, set_variable, emit_line}
use nova64_os.Stellar.Vm.{load_cell, store_cell, next_malloc, map_block, next_input, clear_block}
use nova64_os.Stellar.Vm.{update_cell, Line}

abbrev pub IsWord : ℕ → Type 0
IsWord w = w < 2 ^ 64

-- The machine runs `code` on a stack of `size` doubles, of which it uses no more, with 256
-- variables; all values are 64 bits wide.
pub record IsVm (code : List ℕ) (size : ℕ) (vm : Vm) : Type 0 where
  pub same_code : vm.code ≡ code
  pub same_size : length vm.stack ≡ size
  pub depth : vm.sp ≤ size
  pub count : length vm.variables ≡ 256
  pub stack_words : All IsWord vm.stack
  pub variable_words : All IsWord vm.variables
  pub cell_words : (a v : ℕ) → vm.cells a ≡ some v → IsWord v
  pub malloc_words : All IsWord vm.mallocs
  pub input_words : All IsWord vm.inputs

abbrev pub Any : {A : Type 0} → A → Type 0
Any a = Unit

module _ (code : List ℕ) (size : ℕ) where
  -- A result meets `Q` and the invariant holds after it.
  abbrev pub Post : {A : Type 0} → (A → Type 0) → Option (A × Vm) → Type 0
  Post Q none = Unit
  Post Q (some (a, vm)) = Q a × IsVm code size vm

  pub record Keeps {A : Type 0} (Q : A → Type 0) (m : M A) : Type 0 where
    pub keeps : (vm : Vm) → IsVm code size vm → Post Q (m vm)

  pub Keeps-pure : {A : Type 0} (Q : A → Type 0) (a : A) → Q a → Keeps Q (pure a)
  Keeps-pure Q a q = record { keeps = λ vm ok. (q, ok) }

  Post-bind :
      {A B : Type 0} (Q : A → Type 0) (R : B → Type 0) (o : Option (A × Vm)) (f : A → M B)
      → Post Q o
      → ((a : A) → Q a → Keeps R (f a))
      → Post R (elim o [ none ↦ none | some (a, vm') ↦ f a vm' ])
  Post-bind Q R none f h k = tt
  Post-bind Q R (some (a, vm)) f h k = (k a h.0).keeps vm h.1

  pub Keeps-bind :
      {A B : Type 0} {Q : A → Type 0} {R : B → Type 0} {m : M A} {f : A → M B}
      → Keeps Q m
      → ((a : A) → Q a → Keeps R (f a))
      → Keeps R (m >>= f)
  Keeps-bind {Q = Q} {R = R} {m = m} {f = f} hm hf = record {
    keeps = λ vm ok. Post-bind Q R (m vm) f (hm.keeps vm ok) hf;
  }

  Post-map :
      {A B : Type 0} (Q : B → Type 0) (o : Option A) (g : A → B × Vm)
      → ((a : A) → o ≡ some a → Q (g a).0 × IsVm code size (g a).1)
      → Post Q (Option.map g o)
  Post-map Q none g h = tt
  Post-map Q (some a) g h = h a refl

  pub Keeps-of_option : {A : Type 0} (o : Option A) → Keeps Any (of_option o)
  Keeps-of_option o = record { keeps = λ vm ok. Post-map Any o _ (λ a e. (tt, ok)) }

  pub Keeps-fetch : Keeps Any fetch
  unfolding fetch
  Keeps-fetch = record {
    keeps = λ vm ok. Post-map Any (get_elem? vm.code vm.pc) _ (λ a e. (tt, (assumption)));
  }

  pub Keeps-jump : (address : ℕ) → Keeps Any (jump address)
  unfolding jump
  Keeps-jump address = record { keeps = λ vm ok. (tt, (assumption)) }

  pop_at-Post : (n : ℕ) (vm : Vm) → n ≤ size → IsVm code size vm → Post IsWord (pop_at n vm)
  pop_at-Post zero vm h ok = tt
  pop_at-Post (suc n) vm h ok =
      let below : n ≤ size = omega arith in
      Post-map IsWord (get_elem? vm.stack n) _
        (λ v e. (All-get_elem? IsWord vm.stack n ok.stack_words e, (assumption)))

  pub Keeps-pop : Keeps IsWord pop
  unfolding pop
  Keeps-pop = record { keeps = λ vm ok. pop_at-Post vm.sp vm ok.depth ok }

  pub Keeps-push_value : (v : ℕ) → IsWord v → Keeps Any (push_value v)
  unfolding push_value
  Keeps-push_value v w = record {
    keeps = λ vm ok.
        if_both (Post Any) (ltb vm.sp (length vm.stack))
          (λ lt.
            let above : vm.sp + 1 ≤ size = omega (arith, ltb→lt _ _ lt, ok.same_size) in
            let sized : length (set vm.stack vm.sp v) ≡ size =
              length-set vm.stack vm.sp v ∙ ok.same_size in
            let words : All IsWord (set vm.stack vm.sp v) =
              All-set IsWord vm.stack vm.sp v w ok.stack_words in
            (tt, (assumption)))
          (λ no_room. tt);
  }

  pub Keeps-variable : (i : ℕ) → Keeps IsWord (variable i)
  unfolding variable
  Keeps-variable i = record {
    keeps = λ vm ok.
        Post-map IsWord (get_elem? vm.variables i) _
          (λ v e. (All-get_elem? IsWord vm.variables i ok.variable_words e, ok));
  }

  pub Keeps-set_variable : (i v : ℕ) → IsWord v → Keeps Any (set_variable i v)
  unfolding set_variable
  Keeps-set_variable i v w = record {
    keeps = λ vm ok.
        if_both (Post Any) (ltb i (length vm.variables))
          (λ lt.
            let sized : length (set vm.variables i v) ≡ 256 =
              length-set vm.variables i v ∙ ok.count in
            let words : All IsWord (set vm.variables i v) =
              All-set IsWord vm.variables i v w ok.variable_words in
            (tt, (assumption)))
          (λ out. tt);
  }

  pub Keeps-emit_line : (line : Line) → Keeps Any (emit_line line)
  unfolding emit_line
  Keeps-emit_line line = record { keeps = λ vm ok. (tt, (assumption)) }

  pub Keeps-load_cell : (a : ℕ) → Keeps IsWord (load_cell a)
  unfolding load_cell
  Keeps-load_cell a = record {
    keeps = λ vm ok. Post-map IsWord (vm.cells a) _ (λ v e. (ok.cell_words a v e, ok));
  }

  pub Keeps-store_cell : (a v : ℕ) → IsWord v → Keeps Any (store_cell a v)
  unfolding store_cell
  Keeps-store_cell a v w = record {
    keeps = λ vm ok. Post-map Any (vm.cells a) _ (λ old e.
        let words : (b u : ℕ) → update_cell vm.cells a v b ≡ some u → IsWord u =
          λ b u h. updated vm b u ok.cell_words h in
        (tt, (assumption)));
  }
    where
      updated :
          (vm : Vm) (b u : ℕ)
          → ((a v : ℕ) → vm.cells a ≡ some v → IsWord v)
          → update_cell vm.cells a v b ≡ some u
          → IsWord u
      updated vm b u ok h = ground (arith, ok b u)

  pub Keeps-next_malloc : Keeps IsWord next_malloc
  unfolding next_malloc
  Keeps-next_malloc = record { keeps = λ vm ok. drawn vm vm.mallocs ok ok.malloc_words }
    where
      drawn :
          (vm : Vm) (mallocs : List ℕ)
          → IsVm code size vm
          → All IsWord mallocs
          → Post IsWord (elim mallocs [
            | [] ↦ some (0, vm)
            | a ∷ rest ↦ some (a, record vm { mallocs = rest })
          ])
      drawn vm [] ok words = (omega arith, ok)
      drawn vm (a ∷ rest) ok (word, words) = (word, (assumption))

  pub Keeps-next_input : Keeps IsWord next_input
  unfolding next_input
  Keeps-next_input = record { keeps = λ vm ok. drawn vm vm.inputs ok ok.input_words }
    where
      drawn :
          (vm : Vm) (inputs : List ℕ)
          → IsVm code size vm
          → All IsWord inputs
          → Post IsWord
              (elim inputs [ [] ↦ some (0, vm) | a ∷ rest ↦ some (a, record vm { inputs = rest }) ])
      drawn vm [] ok words = (omega arith, ok)
      drawn vm (a ∷ rest) ok (word, words) = (word, (assumption))

  pub Keeps-map_block : (a n : ℕ) → Keeps Any (map_block a n)
  unfolding map_block
  Keeps-map_block a n = record {
    keeps = λ vm ok.
        if_both (Post Any) (a == 0)
          (λ null. if_both (Post Any) (n == 0) (λ empty. (tt, ok)) (λ some_doubles. tt))
          (λ mapped.
            let words : (b u : ℕ) → clear_block a n vm.cells b ≡ some u → IsWord u =
              λ b u h. cleared vm b u ok.cell_words h in
            (tt, (assumption)));
  }
    where
      cleared :
          (vm : Vm) (b u : ℕ)
          → ((a v : ℕ) → vm.cells a ≡ some v → IsWord v)
          → clear_block a n vm.cells b ≡ some u
          → IsWord u
      cleared vm b u ok h = ground (arith, ok b u)
