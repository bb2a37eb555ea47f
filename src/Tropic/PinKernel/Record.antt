-- ===== src/Tropic/PinKernel/Record.antt =====
-- The binding record of pin_md_kernel.c: what store writes is what load reads.
use nixtropic.Base.{
  sym, ◌*◌, ◌≤◌, ◌<◌, ◌≡◌, refl, ◌⊎◌, true, arith, length, length-append, take_append, drop_append,
}
use nixtropic.Tropic.RecPair.{rec_ok}
use nixtropic.Tropic.PinKernel.{
  Layout, Binding, loaded, as_loaded, well_formed, decode, binding_payload, slot_size, tag_len,
}

-- A binding of the layout.
abbrev pub IsBinding : Layout → Binding → Type 0
IsBinding l b =
    (b.range < l.ranges)
    × (b.retire_pending ≤ 1)
    × ((b.retire_pending ≡ 0) ⊎ (l.ranges ≡ 2))
    × (b.next ≤ l.rounds)
    × (length b.tag ≡ tag_len)
    × (length b.ci ≡ l.rounds * slot_size)

decode-binding_payload : (b : Binding) → length b.tag ≡ tag_len → decode (binding_payload b) ≡ b
unfolding decode binding_payload
decode-binding_payload b len =
    rw (take_append tag_len b.tag b.ci (sym len), drop_append tag_len b.tag b.ci (sym len)) refl

well_formed-binding_payload :
    (l : Layout) (b : Binding) → IsBinding l b → well_formed l (binding_payload b) ≡ true
unfolding well_formed binding_payload
well_formed-binding_payload l b (range, pending, either, next, tag, ci) =
    let len = length-append b.tag b.ci in ground (arith, len)

-- A binding of the layout is read from its record as it was written.
pub as_loaded-binding_payload :
    (l : Layout) (b : Binding) → IsBinding l b → as_loaded l rec_ok (binding_payload b) ≡ loaded b
unfolding as_loaded
as_loaded-binding_payload l b ok =
    let (range, pending, either, next, tag, ci) = ok in
    rw (well_formed-binding_payload l b ok, decode-binding_payload b tag) refl
