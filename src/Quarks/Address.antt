-- ===== src/Quarks/Address.antt =====
-- `ohubRefineQuarkAddress`.
use okscada.Prelude.{
  ◌≡◌, ◌≢◌, refl, sym, ap, true, false, List, ◌==◌, arith, Bool-cases, inl, inr, ==_iff, ==_refl,
  ◌↔◌,
}
use okscada.Quarks.{Quark, Module, phys_of, refine_quark_address}

-- Only the address of the quark is set.
pub refine_address_lem :
    (mods : List Module) (q : Quark)
    → (refine_quark_address mods q).0 ≡ record q { phys_addr = phys_of mods q }
unfolding refine_quark_address
refine_address_lem mods q = elim (Bool-cases (phys_of mods q == q.phys_addr)) [
  | inl e ↦
      rw e (ap (λ a. record q { phys_addr = a }) (sym ((==_iff (phys_of mods q) q.phys_addr).0 e)))
  | inr e ↦ rw e refl
]

-- The quark that is refined has the address of its segment and offset, the result is TRUE just when it had another, and
-- to refine it again changes nothing and is FALSE.
pub refine_quark_address-again :
    (mods : List Module) (q : Quark)
    → let (q', changed) = refine_quark_address mods q in
      (q'.phys_addr ≡ phys_of mods q)
      × ((changed ≡ true) ↔ (q.phys_addr ≢ phys_of mods q))
      × (refine_quark_address mods q' ≡ (q', false))
unfolding refine_quark_address phys_of
refine_quark_address-again mods q = elim (Bool-cases (phys_of mods q == q.phys_addr)) [
  | inl e ↦
      let same = (==_iff (phys_of mods q) q.phys_addr).0 e in
      rw e (sym same, ground (arith, same), rw e refl)
  | inr e ↦ rw e (refl, ground (arith, e), rw (==_refl (phys_of mods q)) refl)
]
