-- ===== src/Lsp/Tests.antt =====
-- The connection on concrete inputs.
use rwx.Prelude.{nat_eq, ◌≤◌, none, some, [], ◌∷◌, ◌++◌, Bytes, codes, ◌≡◌, refl, arith}
use rwx.Prelude.Dict.{get, put, del}
use rwx.Prelude.Result.{ok}
use rwx.Lsp.{frame, read_message}
use rwx.Lsp.Frame.{read_message-frame}
use rwx.Lsp.Connection.{
  Message, filled, Conn, new_conn, begin_request, receive, close_all, Reach, start, next, begun,
  received, reply, response,
}
use rwx.Lsp.Pending.{receive_is_total, filled-id}

abbrev a_body : Bytes
a_body = codes "{\n}"

a_frame : frame a_body ≡ codes "Content-Length: 3\r\n\r\n{\n}"
unfolding frame
a_frame = refl

read_message-frame_example :
    read_message some (frame a_body ++ codes "Content-") ≡ ok (a_body, codes "Content-")
read_message-frame_example =
    read_message-frame some a_body (codes "Content-") a_body refl (ground arith)

abbrev an_answer : Message
an_answer = record { id = some 1; method = []; result = codes "{}"; error = none }

-- One request is asked and answered.
abbrev replied : Conn
replied = record { next_id = 1; pending = []; channels = (1, filled an_answer) ∷ [] }

replied-receive : receive an_answer (begin_request new_conn) ≡ some replied
unfolding receive begin_request new_conn get put del
replied-receive = refl

replied-Reach : Reach replied
replied-Reach = next (next start begun) (received an_answer replied-receive)

receive_is_total_example :
    ((c' : Conn) × (receive an_answer replied ≡ some c'))
    × ((c' : Conn) × (close_all replied ≡ some c'))
receive_is_total_example = receive_is_total an_answer replied-Reach

replied-filled : get replied.channels 1 ≡ some (filled an_answer)
unfolding get
replied-filled = refl

filled-id_example : (1 ≤ replied.next_id) × (an_answer.id ≡ some 1) × (an_answer.method ≡ [])
filled-id_example = filled-id 1 an_answer replied-Reach replied-filled

the_reply : reply (filled an_answer) ≡ some (response (codes "{}"))
unfolding reply
the_reply = refl
