-- ===== src/Core/Control/Restore.antt =====
-- A rejected datagram loses no control frame.
use gtp_rs.Base.{◌≡◌, refl, ap, ◌∙◌, Bool, Option, none, some, List, [], ◌∷◌, ◌++◌, inl, inr}
use gtp_rs.Types.Errors.{Result-cases}
use gtp_rs.Wire.Codec.{PacketBuilder, append_frame}
use gtp_rs.Core.Control.{
  OutgoingControlFrame, build_control_frame, push_all, requeue_controls, directed, drain_controls,
}

push_all_twice :
    {Addr : Type 0} (xs acc queue : List (OutgoingControlFrame Addr))
    → push_all (push_all xs acc) queue ≡ push_all acc (xs ++ queue)
push_all_twice [] acc queue = refl
push_all_twice (x ∷ xs) acc queue = push_all_twice xs (x ∷ acc) queue

module _ {Addr : Type 0} (addr_eq : Addr → Addr → Bool) (active_path : Addr) where
  pub drain_controls-split :
      (b : PacketBuilder) (o : Option Addr) (queue : List (OutgoingControlFrame Addr))
      → (drain_controls addr_eq active_path b o queue).drained
          ++ (drain_controls addr_eq active_path b o queue).left
        ≡ queue
  unfolding drain_controls
  drain_controls-split b o [] = refl
  drain_controls-split b (some dest) (ctrl ∷ queue) = refl
  drain_controls-split b none (ctrl ∷ queue) =
      elim (Result-cases (append_frame b (build_control_frame ctrl))) [
        | inl (b', fits) ↦
            rw fits (
              ap (λ l. ctrl ∷ l)
                (drain_controls-split b' (directed addr_eq active_path ctrl) queue))
        | inr (e, full) ↦ rw full refl
      ]

  -- Whatever was drained and wherever the drain stopped: putting the drained frames back gives the
  -- queue as it was, in its order.
  pub requeue-drain :
      (b : PacketBuilder) (queue : List (OutgoingControlFrame Addr))
      → let d = drain_controls addr_eq active_path b none queue in
        requeue_controls d.left d.drained ≡ queue
  unfolding requeue_controls
  requeue-drain b queue =
      let d = drain_controls addr_eq active_path b none queue in
      push_all_twice d.drained [] d.left ∙ drain_controls-split b none queue
