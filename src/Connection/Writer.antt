-- ===== src/Connection/Writer.antt =====
-- The task that writes to a socket, in `accept_connection` (src/service/websocket.rs).
use grass.Prelude.{Bool, true, false, List, [], ◌∷◌, All}
use grass.State.{Outgoing}

-- What the loop has written by the time that it has received these messages. The list says of each
-- coming write whether it fails, which is logged; where it ends, writes succeed.
unfoldable pub write_loop : List Bool → List Outgoing → List Outgoing
write_loop faults [] = []
write_loop [] (m ∷ ms) = m ∷ write_loop [] ms
write_loop (true ∷ faults) (m ∷ ms) = write_loop faults ms
write_loop (false ∷ faults) (m ∷ ms) = m ∷ write_loop faults ms

pub All-write_loop :
    (P : Outgoing → Type 0) (faults : List Bool) (ms : List Outgoing)
    → All P ms
    → All P (write_loop faults ms)
unfolding write_loop
All-write_loop P faults [] h = tt
All-write_loop P [] (m ∷ ms) h = (h.0, All-write_loop P [] ms h.1)
All-write_loop P (true ∷ faults) (m ∷ ms) h = All-write_loop P faults ms h.1
All-write_loop P (false ∷ faults) (m ∷ ms) h = (h.0, All-write_loop P faults ms h.1)
