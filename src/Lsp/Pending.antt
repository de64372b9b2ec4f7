-- ===== src/Lsp/Pending.antt =====
-- No step of the read loop blocks or panics, and every response reaches its own request.
use rwx.Prelude.{
  ℕ, ◌+◌, ◌≤◌, true, some, Option-cases, Bool-cases, [], ◌∷◌, ◌==◌, nat_eq, bytes_eq, bytes_beq_iff,
  ◌≡◌, refl, subst, sym, ◌∙◌, ◌⊎◌, inl, inr, arith,
}
use rwx.Prelude.Dict.{Dict, get, put, del, unique, get-put, get-del, unique-put, unique-del}
use rwx.Lsp.Connection.{
  Message, Channel, waiting, filled, closed, Conn, new_conn, begin_request, forget, deliver,
  answered, receive, close_channel, close_entries, close_all, Step, begun, forgotten, received,
  ended, Reach, start, next,
}

-- What a channel may hold, by its name.
abbrev pub SlotFits : ℕ → ℕ → Channel → Type 0
SlotFits next_id ch waiting = ch ≤ next_id
SlotFits next_id ch closed = ch ≤ next_id
SlotFits next_id ch (filled msg) = (ch ≤ next_id) × (msg.id ≡ some ch) × (msg.method ≡ [])

SlotFits-suc : (n ch : ℕ) (slot : Channel) → SlotFits n ch slot → SlotFits (n + 1) ch slot
SlotFits-suc n ch waiting h = omega arith
SlotFits-suc n ch closed h = omega arith
SlotFits-suc n ch (filled msg) h = ground (arith, h)

abbrev pub AllFit : ℕ → Dict ℕ Channel → Type 0
AllFit n channels = (ch : ℕ) (slot : Channel) → get channels ch ≡ some slot → SlotFits n ch slot

-- Every pending id has a channel of its own that waits; every filled channel holds a response of its id.
pub record IsSound (c : Conn) : Type 0 where
  pub waits :
      (id ch : ℕ) → get c.pending id ≡ some ch → (ch ≡ id) × (get c.channels id ≡ some waiting)
  pub fits : AllFit c.next_id c.channels
  pub is_unique : unique c.pending ≡ true

pub some_injective : {a b : Conn} → some a ≡ some b → a ≡ b
some_injective h = ground (arith, h)

AllFit-put :
    (n : ℕ) (channels : Dict ℕ Channel) (k : ℕ) (new : Channel)
    → AllFit n channels
    → SlotFits n k new
    → AllFit n (put channels k new)
AllFit-put n channels k new f g ch slot h = elim (Bool-cases (k == ch)) [
  | inl e ↦ subst (SlotFits n ch) (new_is e) (subst (λ j. SlotFits n j new) (k_is e) g)
  | inr e ↦ f ch slot (ground (arith, e, h, get-put channels k ch new))
]
  where
    k_is : (k == ch) ≡ true → k ≡ ch
    k_is e = ground (arith, e)

    new_is : (k == ch) ≡ true → new ≡ slot
    new_is e = ground (arith, e, h, get-put channels k ch new)

new_conn-IsSound : IsSound new_conn
unfolding get unique new_conn
new_conn-IsSound = record {
  waits = λ id ch h. ground (arith, h);
  fits = λ ch slot h. ground (arith, h);
  is_unique = refl;
}

begin_request-IsSound : (c : Conn) → IsSound c → IsSound (begin_request c)
unfolding begin_request
begin_request-IsSound c s = record {
  waits = λ id ch h. ground (
    arith,
    h,
    get-put c.pending (c.next_id + 1) id (c.next_id + 1),
    get-put c.channels (c.next_id + 1) id waiting,
    s.waits id ch,
  );
  fits =
      AllFit-put (c.next_id + 1) c.channels (c.next_id + 1) waiting
        (λ ch slot h. SlotFits-suc c.next_id ch slot (s.fits ch slot h)) (omega arith);
  is_unique = unique-put c.pending (c.next_id + 1) (c.next_id + 1) s.is_unique;
}

forget-IsSound : (id : ℕ) (c : Conn) → IsSound c → IsSound (forget id c)
unfolding forget
forget-IsSound id c s = record {
  waits = λ j ch h. ground (arith, h, get-del c.pending id j, s.waits j ch);
  fits = s.fits;
  is_unique = unique-del c.pending id s.is_unique;
}

-- A response to a pending request is delivered; another message changes nothing.
pub receive-cases :
    (msg : Message) (c : Conn)
    → IsSound c
    → (receive msg c ≡ some c)
      ⊎ ((id : ℕ) × (msg.id ≡ some id)
          × (msg.method ≡ [])
          × (get c.pending id ≡ some id)
          × (get c.channels id ≡ some waiting)
          × (receive msg c
              ≡ some (record c {
                pending = del c.pending id;
                channels = put c.channels id (filled msg);
              })))
unfolding receive answered deliver forget
receive-cases msg c s = elim (Option-cases msg.id) [
  | inl e ↦ inl (ground (arith, e))
  | inr (id, e) ↦ elim (Bool-cases (msg.method == [])) [
    | inr m ↦ inl (ground (arith, e, m))
    | inl m ↦ elim (Option-cases (get c.pending id)) [
      | inl p ↦ inl (ground (arith, e, m, p))
      | inr (ch, p) ↦
          let w = s.waits id ch p in
          inr (
            id,
            e,
            (bytes_beq_iff msg.method []).0 m,
            ground (arith, p, w),
            w.1,
            ground (arith, e, m, p, w),
          )
    ]
  ]
]

received_somehow :
    (msg : Message) (c : Conn)
    → (receive msg c ≡ some c)
      ⊎ ((id : ℕ) × (msg.id ≡ some id)
          × (msg.method ≡ [])
          × (get c.pending id ≡ some id)
          × (get c.channels id ≡ some waiting)
          × (receive msg c
              ≡ some (record c {
                pending = del c.pending id;
                channels = put c.channels id (filled msg);
              })))
    → (c' : Conn) × (receive msg c ≡ some c')
received_somehow msg c (inl e) = (c, e)
received_somehow msg c (inr (id, _, _, _, _, e)) =
    (record c { pending = del c.pending id; channels = put c.channels id (filled msg) }, e)

delivered-IsSound :
    (msg : Message) (id : ℕ) (c : Conn)
    → IsSound c
    → msg.id ≡ some id
    → msg.method ≡ []
    → get c.channels id ≡ some waiting
    → IsSound (record c { pending = del c.pending id; channels = put c.channels id (filled msg) })
delivered-IsSound msg id c s e m w = record {
  waits = λ j ch h.
      ground (arith, h, get-del c.pending id j, s.waits j ch, get-put c.channels id j (filled msg));
  fits = AllFit-put c.next_id c.channels id (filled msg) s.fits (s.fits id waiting w, e, m);
  is_unique = unique-del c.pending id s.is_unique;
}

receive-IsSound :
    (msg : Message) (c : Conn) {c' : Conn} → IsSound c → receive msg c ≡ some c' → IsSound c'
receive-IsSound msg c s h = elim (receive-cases msg c s) [
  | inl e ↦ subst IsSound (some_injective (sym e ∙ h)) s
  | inr (id, e, m, p, w, r) ↦
      subst IsSound (some_injective (sym r ∙ h)) (delivered-IsSound msg id c s e m w)
]

-- The entries still to be closed have channels that wait.
abbrev pub AllWait : Dict ℕ ℕ → Dict ℕ Channel → Type 0
AllWait entries channels =
    (id ch : ℕ) → get entries id ≡ some ch → (ch ≡ id) × (get channels id ≡ some waiting)

pub close_channel-waiting :
    (ch : ℕ) (channels : Dict ℕ Channel)
    → get channels ch ≡ some waiting
    → close_channel ch channels ≡ some (put channels ch closed)
unfolding close_channel
close_channel-waiting ch channels h = ground (arith, h)

pub head_waits :
    (id ch : ℕ) (entries : Dict ℕ ℕ) (channels : Dict ℕ Channel)
    → AllWait ((id, ch) ∷ entries) channels
    → (ch ≡ id) × (get channels id ≡ some waiting)
unfolding get
head_waits id ch entries channels w = w id ch (ground arith)

pub tail_waits :
    (id ch : ℕ) (entries : Dict ℕ ℕ) (channels : Dict ℕ Channel)
    → unique ((id, ch) ∷ entries) ≡ true
    → AllWait ((id, ch) ∷ entries) channels
    → AllWait entries (put channels id closed)
unfolding get unique
tail_waits id ch entries channels u w j k h =
    ground (arith, u, h, w j k, get-put channels id j closed)

pub tail_unique :
    (id ch : ℕ) (entries : Dict ℕ ℕ) → unique ((id, ch) ∷ entries) ≡ true → unique entries ≡ true
unfolding unique
tail_unique id ch entries u = ground (arith, u)

close_entries-AllWait :
    (n : ℕ) (entries : Dict ℕ ℕ) (channels : Dict ℕ Channel)
    → unique entries ≡ true
    → AllWait entries channels
    → AllFit n channels
    → (channels' : Dict ℕ Channel) × (close_entries entries channels ≡ some channels')
      × AllFit n channels'
unfolding close_entries
close_entries-AllWait n [] channels u w f = (channels, refl, f)
close_entries-AllWait n ((id, ch) ∷ entries) channels u w f =
    let (e, here) = head_waits id ch entries channels w in
    let (channels', r, f') =
      close_entries-AllWait n entries (put channels id closed) (tail_unique id ch entries u)
        (tail_waits id ch entries channels u w)
        (AllFit-put n channels id closed f (f id waiting here)) in
    (channels', ground (arith, e, close_channel-waiting id channels here, r), f')

close_all-IsSound : (c : Conn) → IsSound c → (c' : Conn) × (close_all c ≡ some c') × IsSound c'
unfolding close_all get unique
close_all-IsSound c s =
    let (channels', r, f) =
      close_entries-AllWait c.next_id c.pending c.channels s.is_unique s.waits s.fits in
    (
      record c { pending = []; channels = channels' },
      ground (arith, r),
      record { waits = λ id ch h. ground (arith, h); fits = f; is_unique = refl },
    )

step-IsSound : {c c' : Conn} → IsSound c → Step c c' → IsSound c'
step-IsSound {c} s begun = begin_request-IsSound c s
step-IsSound {c} s (forgotten id) = forget-IsSound id c s
step-IsSound {c} s (received msg h) = receive-IsSound msg c s h
step-IsSound {c} s (ended h) =
    let (c', e, s') = close_all-IsSound c s in subst IsSound (some_injective (sym e ∙ h)) s'

pub Reach-IsSound : {c : Conn} → Reach c → IsSound c
Reach-IsSound start = new_conn-IsSound
Reach-IsSound (next r step) = step-IsSound (Reach-IsSound r) step

-- From every state that any sequence of requests, cancelled requests, messages and closings leads
-- to, the read loop takes every message without blocking for ever on a full channel and without
-- sending on a closed one, and it can close all pending channels without closing one twice.
pub receive_is_total :
    {c : Conn} (msg : Message)
    → Reach c
    → ((c' : Conn) × (receive msg c ≡ some c')) × ((c' : Conn) × (close_all c ≡ some c'))
receive_is_total {c} msg r =
    let s = Reach-IsSound r in
    let (c', e, _) = close_all-IsSound c s in
    (received_somehow msg c (receive-cases msg c s), (c', e))

-- In every state that can be reached, a channel that is filled belongs to a request that was begun,
-- and what it holds is a response, not a notification, that carries this request's own id.
pub filled-id :
    {c : Conn} (ch : ℕ) (msg : Message)
    → Reach c
    → get c.channels ch ≡ some (filled msg)
    → (ch ≤ c.next_id) × (msg.id ≡ some ch) × (msg.method ≡ [])
filled-id ch msg r h = (Reach-IsSound r).fits ch (filled msg) h
