-- ===== src/Informers/Sharing.antt =====
-- Which informer a request gives.
use observability.Base.{
  ◌≡◌, refl, List, [], ◌∷◌, some, Option-cases, inl, inr, arith, Text, text_eq_iff,
}
use observability.GoMap.{lookup}
use observability.GoMap.Laws.{lookup-insert}
use observability.Informers.Factory.{
  Informer, NewInformerFunc, State, start, informer_for, resync_period_of,
}
use observability.Informers.Access.{Kind, informer_of_kind}
use observability.Informers.Ops.{
  Op, request, start_all, run_op, run_ops, type_of, made, informer_for_there, informer_for_new,
}

module _ {L W : Type 0} where
  informer_for_keeps :
      (k j : Text) (new_func : NewInformerFunc L W) (st : State L W) (i : Informer L W)
      → lookup k st.factory.informers ≡ some i
      → lookup k (informer_for j new_func st).1.factory.informers ≡ some i
  informer_for_keeps k j new_func st i e = elim (Option-cases (lookup j st.factory.informers)) [
    | inr (w, e') ↦ rw (informer_for_there j new_func st w e') e
    | inl e' ↦
        let w = new_func st.factory.client (resync_period_of j st.factory) st.free in
        rw (informer_for_new j new_func st e')
          (ground (arith, text_eq_iff j k, lookup-insert j k w st.factory.informers))
  ]

  run_op_keeps :
      (k : Text) (op : Op) (st : State L W) (i : Informer L W)
      → lookup k st.factory.informers ≡ some i
      → lookup k (run_op op st).factory.informers ≡ some i
  unfolding run_op start
  run_op_keeps k (request kind) st i e =
      let m = made kind st in
      rw (run_op, m.asks) (informer_for_keeps k (type_of kind) m.new_func st i e)
  run_op_keeps k start_all st i e = e

  run_ops_keeps :
      (k : Text) (ops : List Op) (st : State L W) (i : Informer L W)
      → lookup k st.factory.informers ≡ some i
      → lookup k (run_ops ops st).factory.informers ≡ some i
  unfolding run_ops
  run_ops_keeps k [] st i e = e
  run_ops_keeps k (op ∷ ops) st i e =
      run_ops_keeps k ops (run_op op st) i (run_op_keeps k op st i e)

  informer_for_stands :
      (k : Text) (new_func : NewInformerFunc L W) (st : State L W)
      → let (i, st') = informer_for k new_func st in lookup k st'.factory.informers ≡ some i
  informer_for_stands k new_func st = elim (Option-cases (lookup k st.factory.informers)) [
    | inr (i, e) ↦ rw (informer_for_there k new_func st i e) e
    | inl e ↦
        let i = new_func st.factory.client (resync_period_of k st.factory) st.free in
        rw (informer_for_new k new_func st e)
          (ground (arith, text_eq_iff k k, lookup-insert k k i st.factory.informers))
  ]

-- A request of a type of sinks gives the informer that an earlier request of that type gave,
-- whatever requests and starts stand between them.
pub informer_shared :
    {L W : Type 0} (kind : Kind) (st : State L W) (ops : List Op)
    → let (i, st') = informer_of_kind kind st in
      let (j, st'') = informer_of_kind kind (run_ops ops st') in j ≡ i
informer_shared kind st ops =
    let m = made kind st in
    rw m.asks (
      let (i, st') = informer_for (type_of kind) m.new_func st in
      let n = made kind (run_ops ops st') in
      rw
        (
          n.asks,
          informer_for_there (type_of kind) n.new_func (run_ops ops st') i (
              run_ops_keeps (type_of kind) ops st' i
                (informer_for_stands (type_of kind) m.new_func st)),
        )
        refl)
