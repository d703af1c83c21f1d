-- ===== src/Idt/Vectors.antt =====
-- What `idt_init` leaves in the table, at every vector.
use flux_kernel.Prelude.{ℕ, ◌<◌, ◌≡◌, refl, Option, none, some, List, [], ◌∷◌}
use flux_kernel.Prelude.{
  All, length, get_elem?, set, length-set, get_elem?-set_self, get_elem?-set_ne, get_elem?-below,
}
use flux_kernel.Prelude.{
  ◌==◌, if◌then◌else◌, Bool-cases, inl, inr, arith, ap, ◌∙◌, sym, subst, ==_true,
}
use flux_kernel.Machine.{Machine, ok, and_then}
use flux_kernel.Structures.Gates.{
  IdtEntry, init_idt_attributes, init_idt_entry, init_idt_descriptor,
}
use flux_kernel.Structures.Gates.{
  idt_attributes_type_interrupt, idt_attributes_type_trap, idt_n_entries,
}
use flux_kernel.Interrupts.{Isr}
use flux_kernel.Idt.{
  Gate, Layout, isr_seg, idt_load, idt_attach_handler, attach_gates, gates, idt_init,
}

-- The handlers by vector, as idt.h lists them.
unfoldable pub isr_of : ℕ → Option Isr
isr_of vector =
    if vector == 0x00
    then some Isr.de
    else if vector == 0x02
    then some Isr.nmi
    else if vector == 0x03
    then some Isr.bp
    else if vector == 0x04
    then some Isr.of
    else if vector == 0x05
    then some Isr.br
    else if vector == 0x06
    then some Isr.ud
    else if vector == 0x08
    then some Isr.df
    else if vector == 0x0a
    then some Isr.ts
    else if vector == 0x0b
    then some Isr.np
    else if vector == 0x0c
    then some Isr.ss
    else if vector == 0x0d
    then some Isr.gp
    else if vector == 0x0e
    then some Isr.pf
    else if vector == 0x32
    then some Isr.syscall
    else none

-- Exceptions have trap gates; the non-maskable interrupt and the system call, interrupt gates.
abbrev pub gate_type : Isr → ℕ
gate_type Isr.nmi = idt_attributes_type_interrupt
gate_type Isr.syscall = idt_attributes_type_interrupt
gate_type _ = idt_attributes_type_trap

get_elem?-set {ℓ} :
    {A : Type ℓ} (xs : List A) (i j : ℕ) (a : A)
    → i < length xs
    → get_elem? (set xs i a) j ≡ (if i == j then some a else get_elem? xs j)
get_elem?-set xs i j a h = elim (Bool-cases (i == j)) [
  | inl e ↦ rw (e, sym (==_true i j e)) (get_elem?-set_self xs i a h)
  | inr e ↦ rw e (get_elem?-set_ne xs i j a (ground arith))
]

-- A write inside the table.
idt_attach_handler_run :
    (vector seg attr handler : ℕ) (m : Machine)
    → vector < length m.idt_table
    → idt_attach_handler vector seg attr handler m
      ≡ ok tt (record m { idt_table = set m.idt_table vector (init_idt_entry seg attr handler) })
unfolding idt_attach_handler
idt_attach_handler_run vector seg attr handler m h =
    let (old, e) = get_elem?-below m.idt_table vector h in rw (idt_attach_handler, e) refl

module _ (layout : Layout) where
  abbrev pub entry_of : ℕ → Isr → IdtEntry
  entry_of type isr = init_idt_entry isr_seg (init_idt_attributes 0 type 0) (layout.handler isr)

  -- The entry at a vector: the handler's gate, or what was there.
  abbrev pub installed : Option Isr → Option IdtEntry → Option IdtEntry
  installed none old = old
  installed (some isr) old = some (entry_of (gate_type isr) isr)

  abbrev attached : List Gate → List IdtEntry → List IdtEntry
  attached [] table = table
  attached ((vector, type, isr) ∷ rest) table = attached rest (set table vector (entry_of type isr))

  attach_gates-attached :
      (gs : List Gate) (m : Machine)
      → All (λ g. g.0 < length m.idt_table) gs
      → attach_gates layout gs m ≡ ok tt (record m { idt_table = attached gs m.idt_table })
  unfolding attach_gates
  attach_gates-attached [] m fits = refl
  attach_gates-attached ((vector, type, isr) ∷ rest) m (lt, fits) =
      let entry = entry_of type isr in
      let fits' =
        subst (λ n. All (λ g. g.0 < n) rest) (sym (length-set m.idt_table vector entry)) fits in
      ap (λ r. and_then r (λ _. attach_gates layout rest))
        (idt_attach_handler_run vector _ _ _ m lt)
      ∙ attach_gates-attached rest (record m { idt_table = set m.idt_table vector entry }) fits'

  -- The last gate of a list for a vector.
  find_gate : List Gate → ℕ → Option IdtEntry → Option IdtEntry
  find_gate [] w old = old
  find_gate ((vector, type, isr) ∷ rest) w old =
      find_gate rest w (if vector == w then some (entry_of type isr) else old)

  get_elem?-attached :
      (gs : List Gate) (table : List IdtEntry) (w : ℕ)
      → All (λ g. g.0 < length table) gs
      → get_elem? (attached gs table) w ≡ find_gate gs w (get_elem? table w)
  unfolding find_gate
  get_elem?-attached [] table w fits = refl
  get_elem?-attached ((vector, type, isr) ∷ rest) table w (lt, fits) =
      let entry = entry_of type isr in
      let fits' = subst (λ n. All (λ g. g.0 < n) rest) (sym (length-set table vector entry)) fits in
      get_elem?-attached rest (set table vector entry) w fits'
      ∙ ap (find_gate rest w) (get_elem?-set table vector w entry lt)

  find_gate-gates :
      (w : ℕ) (old : Option IdtEntry) → find_gate gates w old ≡ installed (isr_of w) old
  unfolding find_gate gates isr_of
  find_gate-gates w old = ground arith

  gates_fit : (n : ℕ) → n ≡ 256 → All (λ g. g.0 < n) gates
  unfolding gates
  gates_fit n e = ground arith

  -- With a table of 256 entries `idt_init` returns; then the processor uses the whole table, every
  -- vector that idt.h lists has the gate of its handler, in the kernel's code segment and for ring
  -- 0, every other vector has the entry it had, and nothing but the table and its register has
  -- changed.
  pub idt_init-installed :
      (m : Machine)
      → length m.idt_table ≡ idt_n_entries
      → (table : List IdtEntry) × (idt_init layout m
          ≡ ok tt (record m {
            idt_table = table;
            idtr = record { idt_size = 4095; offset = layout.idt_table_address };
          }))
        × ((vector : ℕ)
            → get_elem? table vector ≡ installed (isr_of vector) (get_elem? m.idt_table vector))
  unfolding idt_init idt_load init_idt_descriptor
  idt_init-installed m whole =
      let fits = gates_fit (length m.idt_table) whole in
      let m' = record m { idtr = record { idt_size = 4095; offset = layout.idt_table_address } } in
      (
        attached gates m.idt_table,
        attach_gates-attached gates m' fits,
        λ vector. get_elem?-attached gates m.idt_table vector fits ∙ find_gate-gates vector _,
      )
