-- ===== src/Net/TcpSocket/Ownership.antt =====
-- Which object closes a descriptor, and how often.
use ustevent.Prelude.{ℕ, ◌≡◌, refl, inl, inr, Option-cases, some, [], ◌∷◌, ◌++◌, pos}
use ustevent.Net.Platform.{returned, failed}
use ustevent.Net.TcpSocket.{
  TcpSocket, close, destroy, move_construct, move_assign, release, destroy_fd,
}

-- A descriptor that is moved from one socket to a new one, or released, is closed once in all by the
-- destructors and the one who has it.
pub destroy-move :
    (s : TcpSocket)
    → (destroy (move_construct s).0 ++ destroy (move_construct s).1 ≡ destroy s)
      × (destroy_fd (release s).0 ++ destroy (release s).1 ≡ destroy s)
unfolding destroy move_construct release
destroy-move s = elim (Option-cases s.socket_fd) [
  | inl e ↦ (rw e refl, rw e refl)
  | inr (fd, e) ↦ (rw e refl, rw e refl)
]

-- Move assignment loses the descriptor of the socket that is assigned to: after it the destructors of
-- the two sockets close the descriptor of the other one only.
pub destroy-move_assign :
    (s another : TcpSocket)
    → destroy (move_assign s another).0 ++ destroy (move_assign s another).1 ≡ destroy another
unfolding destroy move_assign
destroy-move_assign s another = elim (Option-cases another.socket_fd) [
  | inl e ↦ rw e refl
  | inr (fd, e) ↦ rw e refl
]

-- A socket with a descriptor that is closed without an error closes it again when it is destroyed;
-- after a close that fails the destructor leaves the descriptor alone.
pub close-destroy :
    (s : TcpSocket) (fd n e : ℕ)
    → s.socket_fd ≡ some fd
    → (let (error, t, closed) = close s (returned n) in
        (error ≡ pos 0) × (closed ++ destroy t ≡ fd ∷ fd ∷ []))
      × (let (error, t, closed) = close s (failed e) in
          (error ≡ pos e) × (closed ++ destroy t ≡ fd ∷ []))
unfolding close destroy
close-destroy s fd n e h = ((rw h refl, rw h refl), (rw h refl, rw h refl))
