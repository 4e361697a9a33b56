-- ===== src/Flop/Credit.antt =====
-- Rulings S32 and S44: a claim is credited only where a documented rule decides the output, and a
-- documented output cites the page of its rule.
use xilinx_unittests.Prelude.{
  ℕ, true, false, ◌||◌, ◌≡◌, ◌⊎◌, arith, List, [], ◌∷◌, Option, none, some, ok, ◌==◌, bind-ok,
}
use xilinx_unittests.Flop as Model
use xilinx_unittests.Flop.{
  Flop, Kind, Attrs, Port, Prov, port_of, new, power_on, drive, drive_checked, edge, set_gsr,
}
use xilinx_unittests.Flop.Calls.{Call, apply, run}
use xilinx_unittests.Flop.Table.{Event}

-- One stimulus at a powered model.
abbrev pub act : Event → Flop → Flop
act (Event.drive p v) f = drive p v f
act (Event.edge r) f = edge r f
act (Event.gsr v) f = set_gsr v f

abbrev pub IsDocumented : Prov → Type 0
IsDocumented (Prov.doc n) = Unit {0}
IsDocumented (Prov.inferred r) = ⊥

-- A stimulus that credits a claim leaves a documented output, or leaves the output as it was with
-- the clock enable Low.
pub act-credit :
    (x : Event) (f : Flop)
    → ((act x f).claims ≡ f.claims)
      ⊎ (IsDocumented (act x f).q.prov)
      ⊎ (((act x f).q ≡ f.q) × (f.pin.ce ≡ false))
unfolding drive edge set_gsr
act-credit (Event.drive Port.ctrl v) f = ground arith
act-credit (Event.drive _ v) f = ground arith
act-credit (Event.edge r) f = ground arith
act-credit (Event.gsr v) f = ground arith

pub record IsCredited (f : Flop) : Type 0 where
  pub only_inv_c : f.claims.inv_c ≡ true → f.inv_c ≡ true
  pub only_inv_d : f.claims.inv_d ≡ true → f.inv_d ≡ true
  pub only_inv_ctrl : f.claims.inv_ctrl ≡ true → f.inv_ctrl ≡ true
  pub cited :
      (n : ℕ)
      → f.q.prov ≡ Prov.doc n
      → (n ≡ f.kind.page) ⊎ ((n ≡ f.kind.attr_page) × ((f.inv_c || (f.inv_d || f.inv_ctrl)) ≡ true))

power_on-IsCredited : (k : Kind) (a : Attrs) → IsCredited (power_on (new k a))
unfolding power_on new
power_on-IsCredited k a = ground arith

act-IsCredited : (x : Event) (f : Flop) → IsCredited f → IsCredited (act x f)
unfolding drive edge set_gsr
act-IsCredited (Event.drive Port.ctrl v) f h = ground arith
act-IsCredited (Event.drive _ v) f h = ground arith
act-IsCredited (Event.edge r) f h = ground arith
act-IsCredited (Event.gsr v) f h = ground arith

drive_checked-act :
    (o : Option Port) (v : ℕ) (f g : Flop)
    → drive_checked o v f ≡ ok g
    → (x : Event) × (g ≡ act x f)
drive_checked-act none v f g h = absurd (cc)
drive_checked-act (some p) v f g h = (Event.drive p (v == 1), ground arith)

-- A call that does not raise is one stimulus.
apply-act : (x : Call) (f g : Flop) → apply x f ≡ ok g → (e : Event) × (g ≡ act e f)
unfolding apply Model.set_input Model.clock_edge Model.glbl
apply-act (Call.set_input p v) f g h = drive_checked-act (port_of f.kind p) v f g (ground arith)
apply-act (Call.clock_edge p r) f g h = (Event.edge r, ground arith)
apply-act (Call.glbl s v) f g h = (Event.gsr v, ground arith)

run_from-IsCredited : (xs : List Call) (f g : Flop) → IsCredited f → run xs f ≡ ok g → IsCredited g
unfolding run
run_from-IsCredited [] f g c h = ground arith
run_from-IsCredited (x ∷ xs) f g c h =
    let (f', ran, rest) = bind-ok (apply x f) (run xs) h in
    let (e, moved) = apply-act x f f' ran in
    run_from-IsCredited xs f' g (rw moved (act-IsCredited e f c)) rest

-- After power-on and any calls that do not raise, an inversion claim is credited only where that
-- attribute is set, and a documented output cites the page of the logic table, or that of the
-- attributes where one of them inverts.
pub run-IsCredited :
    (k : Kind) (a : Attrs) (xs : List Call) (g : Flop)
    → run xs (power_on (new k a)) ≡ ok g
    → IsCredited g
run-IsCredited k a xs g h =
    run_from-IsCredited xs (power_on (new k a)) g (power_on-IsCredited k a) h
