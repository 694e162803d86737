-- ===== src/Agent/Node/Broadcasting.antt =====
-- The end of the broadcaster of node-agent/src/network/discovery.rs.
use arcflame.Base.{
  ℕ, zero, suc, ◌+◌, ◌-◌, ◌/◌, ◌≤◌, ◌<◌, ◌≡◌, refl, ◌∙◌, ◌⊎◌, inl, inr, min, Bool, true, false,
  List, [], ◌∷◌, some, length, ltb, ltb→lt, Bool-cases, arith,
}
use arcflame.Agent.{Text, Try, done, failed}
use arcflame.Agent.Node.Discovery.{
  DiscoveryMessage, Udp, dest, Stopped, wait, broadcast, discovery_interval, open_socket, run_task,
  start_broadcaster,
}

lt_or_le : (a b : ℕ) → (a < b) ⊎ (b ≤ a)
lt_or_le a b = elim (Bool-cases (ltb a b)) [
  | inl e ↦ inl (ltb→lt a b e)
  | inr e ↦ inr (ground arith)
]

module _ (U : Udp) (T : ℕ) where
  -- How the broadcaster ends: without having sent anything, if the message cannot be written or there is
  -- no socket; or in second `T`, with a message in each five seconds begun.
  pub data Announces (msg : DiscoveryMessage) (s : U.State) (r : Stopped U) : Type 0 where
    unwritten : (e : Text) → U.to_vec msg ≡ failed e → r.sent ≡ [] → Announces msg s r
    unopened : (e : Text) → (open_socket U s).0 ≡ failed e → r.sent ≡ [] → Announces msg s r
    announced :
        (payload : List ℕ) (socket : U.Socket)
        → U.to_vec msg ≡ done payload
        → (open_socket U s).0 ≡ done socket
        → r.at ≡ T
        → length r.sent ≡ (T + 4) / 5
        → Announces msg s r

  module _ (shutdown : ℕ → Bool) (before : (t : ℕ) → t < T → shutdown t ≡ false)
      (since : (t : ℕ) → T ≤ t → shutdown t ≡ true) where
    -- The wait ends after its polls, or at the second at which the flag is set.
    wait_ends : (polls t : ℕ) → t < T → wait shutdown polls t ≡ min (t + polls) T
    unfolding wait
    wait_ends zero t early = omega arith
    wait_ends (suc polls) t early = elim (lt_or_le (suc t) T) [
      | inl less ↦ rw (wait, before (suc t) less) (wait_ends polls (suc t) less ∙ omega arith)
      | inr reached ↦ rw (wait, since (suc t) reached) (omega arith)
    ]

    broadcast_from :
        (socket : U.Socket) (payload : List ℕ) (fuel t : ℕ) (s : U.State)
        → t ≤ T
        → T - t < fuel
        → (r : Stopped U) × (broadcast U socket payload fuel shutdown t s ≡ some r)
          × (r.at ≡ T)
          × (length r.sent ≡ (T - t + 4) / 5)
    unfolding broadcast
    broadcast_from socket payload zero t s early enough = absurd (omega arith)
    broadcast_from socket payload (suc fuel) t s early enough = elim (lt_or_le t T) [
      | inr reached ↦
          let r : Stopped U = record { at = t; sent = []; machine = s } in
          (r, rw (broadcast, since t reached) refl, omega arith, omega arith)
      | inl less ↦
          let w = wait_ends discovery_interval t less in
          let (r, run, ends, count) =
            broadcast_from socket payload fuel (wait shutdown discovery_interval t)
              (U.send_to socket payload (dest U) s).1 (omega (arith, w)) (omega (arith, w)) in
          let r' : Stopped U = record r { sent = t ∷ r.sent } in
          (r', rw (broadcast, before t less, run) refl, ends, omega (arith, w, count))
    ]

    task_ends :
        (msg : DiscoveryMessage) (s : U.State) (payload : List ℕ) (fuel : ℕ)
        (opened : Try U.Socket × U.State)
        → T < fuel
        → U.to_vec msg ≡ done payload
        → (open_socket U s).0 ≡ opened.0
        → (r : Stopped U) × (run_task U payload fuel shutdown opened ≡ some r) × Announces msg s r
    task_ends msg s payload fuel (failed e, s') enough written found =
        (_, refl, unopened e found refl)
    task_ends msg s payload fuel (done socket, s') enough written found =
        let (r, run, ends, count) =
          broadcast_from socket payload fuel 0 s' (omega arith) (omega (arith, enough)) in
        (r, run, announced payload socket written found ends (omega (arith, count)))

    start_ends :
        (msg : DiscoveryMessage) (s : U.State) (fuel : ℕ) (written : Try (List ℕ))
        → T < fuel
        → U.to_vec msg ≡ written
        → (r : Stopped U) × (start_broadcaster U fuel shutdown msg s ≡ some r) × Announces msg s r
    unfolding start_broadcaster
    start_ends msg s fuel (failed e) enough found = (
      record { at = 0; sent = []; machine = s },
      rw (start_broadcaster, found) refl,
      unwritten e found refl,
    )
    start_ends msg s fuel (done payload) enough found =
        let (r, run, ends) = task_ends msg s payload fuel (open_socket U s) enough found refl in
        (r, rw (start_broadcaster, found) run, ends)

-- Let the shutdown flag be set from second `T` on, and let the machine's sockets answer anything. Then the
-- broadcaster ends, and `T + 1` rounds of fuel are enough: without having sent anything, if the message
-- cannot be written or the socket not be opened for broadcasts; and else at second `T`, having tried to
-- send one message in each five seconds begun, also if sends fail.
pub broadcast_stops :
    (U : Udp) (T : ℕ) (shutdown : ℕ → Bool)
    → ((t : ℕ) → t < T → shutdown t ≡ false)
    → ((t : ℕ) → T ≤ t → shutdown t ≡ true)
    → (fuel : ℕ) (msg : DiscoveryMessage) (s : U.State) → T < fuel
    → (r : Stopped U) × (start_broadcaster U fuel shutdown msg s ≡ some r) × Announces U T msg s r
broadcast_stops U T shutdown before since fuel msg s enough =
    start_ends U T shutdown before since msg s fuel (U.to_vec msg) enough refl
