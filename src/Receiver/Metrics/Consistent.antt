-- ===== src/Receiver/Metrics/Consistent.antt =====
-- Asking for the counters keeps the invariant of the receiver.
use niw_pspto_pc.Base.{◌≡◌, ℕ, some, Option-cases, inl, inr, arith}
use niw_pspto_pc.Base.Dict.{lookup, insert, lookup-insert, insert-IsDistinct}
use niw_pspto_pc.Receiver.State.{Receiver, ClientState, Address, address_eq}
use niw_pspto_pc.Receiver.Invariant.{IsSound, IsConsistent}
use niw_pspto_pc.Receiver.Metrics.{trim_rate, trim_active, metrics, rejected_pairing_cache_size}
use niw_pspto_pc.Receiver.Metrics.Laws.{trimmed}

stored-IsSound :
    (now : ℕ) (r : Receiver) (a b : Address) (state : ClientState)
    → lookup a r.clients ≡ some state
    → IsSound r a
    → IsSound r b
    → IsSound (record r { clients = insert a (trim_rate now state) r.clients }) b
unfolding trim_rate
stored-IsSound now r a b state known ha hb =
    let found = lookup-insert a b (trim_rate now state) r.clients in
    let same = address_eq.beq_iff a b in
    record {
      active_known = λ e. ground (arith, hb.active_known e);
      active_free = hb.active_free;
      blocked_known = λ e. ground (arith, hb.blocked_known e);
      acked_known = λ e. ground (arith, hb.acked_known e);
      fresh_seen = ground (arith, ha.fresh_seen, hb.fresh_seen);
    }

pub metrics-IsConsistent :
    (now : ℕ) (r : Receiver) → IsConsistent r → IsConsistent (metrics now r).0
unfolding metrics trim_active
metrics-IsConsistent now r h = elim (Option-cases r.active_client) [
  | inl nobody ↦ rw (nobody, trim_active) h
  | inr (a, held) ↦ elim (Option-cases (lookup a r.clients)) [
    | inl unknown ↦ rw (held, trim_active, unknown) h
    | inr (state, known) ↦ rw (trimmed now r a state held known) (record {
      sound = λ b. stored-IsSound now r a b state known (h.sound a) (h.sound b);
      distinct = insert-IsDistinct a (trim_rate now state) r.clients h.distinct;
      token = h.token;
      retention = h.retention;
    })
  ]
]

pub cache_size-IsConsistent :
    (now : ℕ) (r : Receiver) → IsConsistent r → IsConsistent (rejected_pairing_cache_size now r).0
unfolding rejected_pairing_cache_size
cache_size-IsConsistent now r h = record {
  sound = λ a.
      let s = h.sound a in
      record {
        active_known = s.active_known;
        active_free = s.active_free;
        blocked_known = s.blocked_known;
        acked_known = s.acked_known;
        fresh_seen = s.fresh_seen;
      };
  distinct = h.distinct;
  token = h.token;
  retention = h.retention;
}
