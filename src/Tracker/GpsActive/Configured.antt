-- ===== src/Tracker/GpsActive/Configured.antt =====
-- The configuration of the GPS receiver, where it answers.
use docker_applications.Common.{
  ℕ, ◌+◌, ◌*◌, ◌≤◌, ◌≡◌, refl, sym, ap, subst, ◌∙◌, true, false, some, List, [], ◌∷◌, length, drop,
  ◌/◌, ◌%◌, arith, Option,
}
use docker_applications.Common.Memory.{
  splice, length-splice, splice-prefix, read_at, write_at, read_at_prefix,
}
use docker_applications.Tracker.NavPvt.{NavPvt}
use docker_applications.Ublox.{UBlox, packet, is_ack, send}
use docker_applications.Ublox.Commands.{
  Waiting, wait_for, cfg_msg, send_structure, set_port_configuration_ddc,
  get_port_configuration_ddc,
}
use docker_applications.Ublox.Commands.Acknowledged.{after_ack, wait-send}
use docker_applications.Ublox.Commands.Replies.{wait_for-send}
use docker_applications.Tracker.GpsActive.{
  Gps, Replies, switched, without_nmea, configure, set_gps_active,
}

written :
    (m buffer : List ℕ) → length m ≤ length buffer → write_at buffer 0 m ≡ some (splice 0 m buffer)
unfolding write_at
written m buffer h = ground arith

read_back :
    (m buffer : List ℕ)
    → length m ≤ length buffer
    → read_at (splice 0 m buffer) 0 (length m) ≡ some m
read_back m buffer h =
    ap (λ b. read_at b 0 (length m)) (splice-prefix m buffer h)
    ∙ read_at_prefix m (drop (length m) buffer)

-- A message with a structure: what is sent, and the parser after an acknowledgment.
send_structure-ack :
    (a b c d : ℕ) (structure : List ℕ) (u : UBlox) (id class msg : ℕ)
    → u.state_ ≡ 0
    → length u.acked_id ≡ 2
    → is_ack (5 * 256 + id) ≡ true
    → length (a ∷ b ∷ c ∷ d ∷ structure) ≤ length u.payload_buffer
    → send_structure (a ∷ b ∷ c ∷ d ∷ []) structure (send (5 ∷ id ∷ 2 ∷ 0 ∷ class ∷ msg ∷ [])) u
      ≡ some (
        send (a ∷ b ∷ c ∷ d ∷ structure),
        after_ack
            (record u { payload_buffer = splice 0 (a ∷ b ∷ c ∷ d ∷ structure) u.payload_buffer })
            id
            class
            msg,
        packet (5 * 256 + id),
      )
unfolding send_structure
send_structure-ack a b c d structure u id class msg idle two ack fits =
    let m : List ℕ = a ∷ b ∷ c ∷ d ∷ structure in
    let size : 4 + length structure ≡ length m = omega arith in
    rw
      (
        size,
        written m u.payload_buffer fits,
        read_back m u.payload_buffer fits,
        wait-send (record u { payload_buffer = splice 0 m u.payload_buffer }) id class msg idle two
            ack,
      )
      refl

-- An acknowledgment (1) or a refusal (0) of a message, framed as the receiver does.
abbrev pub ack_frame : ℕ → ℕ → ℕ → List ℕ
ack_frame id class msg = send (5 ∷ id ∷ 2 ∷ 0 ∷ class ∷ msg ∷ [])

-- The three messages.
abbrev pub question : List ℕ
question = send (6 ∷ 0 ∷ 0 ∷ 0 ∷ [])

abbrev pub port_message : List ℕ → List ℕ
port_message pcd = send (6 ∷ 0 ∷ 20 ∷ 0 ∷ without_nmea pcd)

abbrev pub rate_message : List ℕ
rate_message = send (6 ∷ 1 ∷ 3 ∷ 0 ∷ 1 ∷ 7 ∷ 1 ∷ [])

-- A parser that waits for a packet, with its arrays.
pub record IsIdle (u : UBlox) : Type 0 where
  pub idle : u.state_ ≡ 0
  pub room : 24 ≤ length u.payload_buffer
  pub two : length u.acked_id ≡ 2

module _ {S : Type 0} (delegate : NavPvt → S → Option S) where
  configure-acks :
      (g : Gps S) (u : UBlox) (pcd : List ℕ) (s : S) (replies : Replies) (id id' : ℕ)
      → IsIdle u
      → length pcd ≡ 20
      → is_ack (5 * 256 + id) ≡ true
      → is_ack (5 * 256 + id') ≡ true
      → replies.to_port ≡ ack_frame id 6 0
      → replies.to_rate ≡ ack_frame id' 6 1
      → (v : UBlox) × (configure delegate replies g
            (u, record { found = true; structure = pcd; state = s })
          ≡ some (
            port_message pcd ∷ rate_message ∷ [],
            record g { parser = v; func_nav_pvt = some delegate },
            s,
          ))
        × IsIdle v
        × (length v.payload_buffer ≡ length u.payload_buffer)
  unfolding configure set_port_configuration_ddc cfg_msg
  configure-acks g u pcd s replies id id' h size ack ack' port rate =
      let m : List ℕ = 6 ∷ 0 ∷ 20 ∷ 0 ∷ without_nmea pcd in
      let size' = length-splice 14 (1 ∷ 0 ∷ []) pcd in
      let u1 = after_ack (record u { payload_buffer = splice 0 m u.payload_buffer }) id 6 0 in
      let same = length-splice 0 m u.payload_buffer in
      (
        after_ack u1 id' 6 1,
        rw
            (
              port,
              rate,
              send_structure-ack 6 0 20 0 (without_nmea pcd) u id 6 0 h.idle h.two ack
                  (omega (arith, size, size', h.room)),
              wait-send u1 id' 6 1 refl refl ack',
            )
            refl,
        record { idle = refl; room = omega (arith, same, h.room); two = refl },
        same,
      )

  -- The reply to the question.
  answered :
      (f : Option (NavPvt → S → Option S)) (u : UBlox) (c : ℕ) (cs : List ℕ) (w : Waiting S)
      → IsIdle u
      → length (c ∷ cs) ≡ 20
      → length w.structure ≡ 20
      → (v : UBlox) × ((get_port_configuration_ddc f (send (6 ∷ 0 ∷ 20 ∷ 0 ∷ c ∷ cs)) u w).1
          ≡ some (v, record w { found = true; structure = c ∷ cs }))
        × IsIdle v
        × (length v.payload_buffer ≡ length u.payload_buffer)
  unfolding get_port_configuration_ddc
  answered f u c cs w h size size' =
      let (v, waits, idle, same, acked) =
        wait_for-send f u 0 c cs w h.idle refl (omega (arith, size, h.room)) (omega (arith, size))
          (size' ∙ sym size) in
      (
        v,
        subst
            (λ n.
              wait_for f 0x0600 n (send (6 ∷ 0 ∷ n % 256 ∷ n / 256 ∷ c ∷ cs)) u w
              ≡ some (v, record w { found = true; structure = c ∷ cs }))
            size waits,
        record {
          idle = idle;
          room = omega (arith, same, h.room);
          two = ap (λ bs. length bs) acked ∙ h.two;
        },
        same,
      )

  -- With a receiver that answers the question with a port configuration of 20 bytes and the other
  -- messages with an acknowledgment or a refusal, all framed as `send` does, whatever the parser holds
  -- and in whatever state it was left: switched on, the receiver gets three messages, the question, its
  -- configuration with the output mask 1, and the rate of the solutions; `delegateNavPvt` is not
  -- called, and is the function for solutions from then on; the parser is in state 0, its arrays as
  -- large as before.
  pub set_gps_active-configures :
      (g : Gps S) (c : ℕ) (cs pcd : List ℕ) (s : S) (id id' : ℕ)
      → 24 ≤ length g.parser.payload_buffer
      → length g.parser.acked_id ≡ 2
      → length (c ∷ cs) ≡ 20
      → length pcd ≡ 20
      → is_ack (5 * 256 + id) ≡ true
      → is_ack (5 * 256 + id') ≡ true
      → (v : UBlox) × (set_gps_active delegate
            (record {
              to_question = send (6 ∷ 0 ∷ 20 ∷ 0 ∷ c ∷ cs);
              to_port = ack_frame id 6 0;
              to_rate = ack_frame id' 6 1;
            })
            pcd
            true
            g
            s
          ≡ some (
            question ∷ port_message (c ∷ cs) ∷ rate_message ∷ [],
            record { enabled = true; parser = v; func_nav_pvt = some delegate },
            s,
          ))
        × IsIdle v
        × (length v.payload_buffer ≡ length g.parser.payload_buffer)
  unfolding set_gps_active get_port_configuration_ddc
  set_gps_active-configures g c cs pcd s id id' room two size size' ack ack' =
      let on = switched true g in
      let replies : Replies = record {
        to_question = send (6 ∷ 0 ∷ 20 ∷ 0 ∷ c ∷ cs);
        to_port = ack_frame id 6 0;
        to_rate = ack_frame id' 6 1;
      } in
      let (u, finds, ready, same) =
        answered on.func_nav_pvt on.parser c cs
          (record { found = false; structure = pcd; state = s })
          (record { idle = refl; room = room; two = two }) size size' in
      let (v, configures, ready', same') =
        configure-acks on u (c ∷ cs) s replies id id' ready size ack ack' refl refl in
      (v, rw (finds, configures) refl, ready', same' ∙ same)

  -- Without a reply to the question, only that is sent, and the function for solutions is the one from
  -- before: none, if the receiver has not answered since the start.
  pub set_gps_active-no_reply :
      (g : Gps S) (to_port to_rate pcd : List ℕ) (s : S)
      → set_gps_active delegate
          (record { to_question = []; to_port = to_port; to_rate = to_rate })
          pcd
          true
          g
          s
        ≡ some (question ∷ [], switched true g, s)
  unfolding set_gps_active get_port_configuration_ddc wait_for configure
  set_gps_active-no_reply g to_port to_rate pcd s = refl
