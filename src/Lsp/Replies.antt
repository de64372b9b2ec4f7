-- ===== src/Lsp/Replies.antt =====
-- A response that was delivered stays delivered.
use rwx.Prelude.{ℕ, ◌+◌, true, some, Option-cases, [], ◌∷◌, nat_eq, bytes_eq, ◌≡◌, inl, inr, arith}
use rwx.Prelude.Dict.{Dict, get, put, unique, get-put}
use rwx.Lsp.Connection.{
  Message, Channel, waiting, filled, closed, Conn, begin_request, forget, receive, close_entries,
  close_all, Step, begun, forgotten, received, ended, Reach,
}
use rwx.Lsp.Pending.{
  AllWait, IsSound, close_channel-waiting, head_waits, tail_waits, tail_unique, receive-cases,
  Reach-IsSound,
}

close_entries-filled :
    (entries : Dict ℕ ℕ) (channels : Dict ℕ Channel) (k : ℕ) (msg : Message)
    {channels' : Dict ℕ Channel}
    → unique entries ≡ true
    → AllWait entries channels
    → get channels k ≡ some (filled msg)
    → close_entries entries channels ≡ some channels'
    → get channels' k ≡ some (filled msg)
unfolding close_entries
close_entries-filled [] channels k msg u w h e = ground (arith, h, e)
close_entries-filled ((id, ch) ∷ entries) channels k msg u w h e =
    let (same, here) = head_waits id ch entries channels w in
    close_entries-filled entries (put channels id closed) k msg (tail_unique id ch entries u)
      (tail_waits id ch entries channels u w)
      (ground (arith, h, here, get-put channels id k closed))
      (ground (arith, same, e, close_channel-waiting id channels here))

close_all-filled :
    (c : Conn) (k : ℕ) (msg : Message) {c' : Conn}
    → IsSound c
    → get c.channels k ≡ some (filled msg)
    → close_all c ≡ some c'
    → get c'.channels k ≡ some (filled msg)
unfolding close_all
close_all-filled c k msg s h e = elim (Option-cases (close_entries c.pending c.channels)) [
  | inl r ↦ ground (arith, r, e)
  | inr (channels', r) ↦
      ground (arith, r, e, close_entries-filled c.pending c.channels k msg s.is_unique s.waits h r)
]

received-filled :
    (c : Conn) (m : Message) (k : ℕ) (msg : Message) {c' : Conn}
    → IsSound c
    → get c.channels k ≡ some (filled msg)
    → receive m c ≡ some c'
    → get c'.channels k ≡ some (filled msg)
received-filled c m k msg s h e = elim (receive-cases m c s) [
  | inl r ↦ ground (arith, r, e, h)
  | inr (id, _, _, _, w, r) ↦ ground (arith, r, e, h, w, get-put c.channels id k (filled m))
]

begun-filled :
    (c : Conn) (k : ℕ) (msg : Message)
    → IsSound c
    → get c.channels k ≡ some (filled msg)
    → get (begin_request c).channels k ≡ some (filled msg)
unfolding begin_request
begun-filled c k msg s h =
    ground (arith, h, s.fits k (filled msg) h, get-put c.channels (c.next_id + 1) k waiting)

-- Once a response was delivered to a request, no later step takes it away or puts another in its
-- place: not a second response of the same id, not a new request, not the end of the connection.
pub step-filled :
    {c c' : Conn} (k : ℕ) (msg : Message)
    → Reach c
    → Step c c'
    → get c.channels k ≡ some (filled msg)
    → get c'.channels k ≡ some (filled msg)
unfolding forget
step-filled {c} k msg r begun h = begun-filled c k msg (Reach-IsSound r) h
step-filled {c} k msg r (forgotten id) h = h
step-filled {c} k msg r (received m e) h = received-filled c m k msg (Reach-IsSound r) h e
step-filled {c} k msg r (ended e) h = close_all-filled c k msg (Reach-IsSound r) h e
