-- ===== src/Client/Sound/Reads.antt =====
-- A connection of the client that is read, lost or deleted: `read_cb` and `close_cb`.
use udpboardcast.Base.{
  ℕ, ◌≡◌, refl, sym, ap, subst, ◌∙◌, inl, inr, true, false, List, [], ◌∷◌, Option, none, some,
  Bool-cases, Option-cases, arith,
}
use udpboardcast.Table.{Table, erase}
use udpboardcast.Table.Laws.{find-erase, find_of_erase}
use udpboardcast.Stream.{Received, received, out_of_bounds, never_returns, receive}
use udpboardcast.ClientLoop.{
  Ptr, put, Conn, Task, conn_changed, ClientLoop, Outcome, ok, fault, with_conn, set_conn,
}
use udpboardcast.ClientLoop.Read.{
  Nread, nothing, failed, bytes, requests_on, others_than, is_request_on, finish_lost, lose_conn,
  handle_pkgs, read_content, read_cb, close_cb,
}
use udpboardcast.ClientLoop.Invariant.{with_conn_lem, put_self}
use udpboardcast.ClientLoop.Keeps.{Present-put}
use udpboardcast.ClientLoop.Links.{Links-put, Links-erase}
use udpboardcast.ClientLoop.Lost.{broken, after_loss, lose_conn_lem}
use udpboardcast.Client.{Client}
use udpboardcast.Client.Sound.{Sound, listed-asleep}
use udpboardcast.Client.Sound.Parts.{Sound-conns}
use udpboardcast.Client.Sound.Packages.{handle_pkgs-Reads}

with_conn-none :
    (c : Ptr) (s : ClientLoop) (f : Conn → Outcome) → s.conns c ≡ none → with_conn c s f ≡ fault
unfolding with_conn
with_conn-none c s f absent = rw (absent, with_conn) refl

-- A handler that ends well has found its connection in memory.
with_conn-ok :
    (c : Ptr) (s s' : ClientLoop) (f : Conn → Outcome)
    → with_conn c s f ≡ ok s'
    → (x : Conn) × (s.conns c ≡ some x) × (f x ≡ ok s')
with_conn-ok c s s' f e = elim (Option-cases (s.conns c)) [
  | inl absent ↦ let wrong : fault ≡ ok s' = sym (with_conn-none c s f absent) ∙ e in cc wrong
  | inr (x, at) ↦ (x, at, sym (with_conn_lem c s f at) ∙ e)
]

lose_conn-none : (c : Ptr) (s : ClientLoop) → s.conns c ≡ none → lose_conn c s ≡ fault
unfolding lose_conn
lose_conn-none c s absent = with_conn-none c s _ absent

-- Without requests on the connection the table stays as it is.
idle-others_than :
    (conn : ℕ) (tasks : Ptr → Option Task) (m : Table Ptr)
    → requests_on conn tasks m ≡ []
    → others_than conn tasks m ≡ m
unfolding requests_on others_than
idle-others_than conn tasks [] e = refl
idle-others_than conn tasks ((id, p) ∷ m) e = elim (Bool-cases (is_request_on conn tasks p)) [
  | inl on ↦ ground (arith, e, on)
  | inr off ↦
      let rest : requests_on conn tasks m ≡ [] = ground (arith, e, off) in
      rw off (ap (◌∷◌ (id, p)) (idle-others_than conn tasks m rest))
]

finish_lost-ok :
    (ps : List Ptr) (s s' : ClientLoop) → finish_lost ps s ≡ ok s' → (ps ≡ []) × (s ≡ s')
unfolding finish_lost
finish_lost-ok [] s s' e = (refl, cc e)
finish_lost-ok (p ∷ ps) s s' e = cc e

module _ (k : Client) (s : ClientLoop) (v : Sound k) (c : Ptr) (x : Conn)
    (at : k.loop.conns c ≡ some x) where
  -- A connection keeps its id.
  kept-Sound : (y : Conn) → y.conn_id ≡ x.conn_id → Sound (record k { loop = set_conn c y k.loop })
  unfolding set_conn
  kept-Sound y same =
      Sound-conns k v k.loop.conn_table (put k.loop.conns c (some y)) k.loop.events
        (λ j d there. there)
        (Links-put k.loop.conn_table k.loop.conns k.loop.next_ptr c x y at same v.links)
        (λ d j e.
          let (present, out) = v.asked d j e in (Present-put k.loop.conns c y d present, out))

  lost :
      finish_lost (requests_on x.conn_id k.loop.tasks k.loop.task_table) (after_loss c x k.loop)
        ≡ ok s
      → Sound (record k { loop = s })
  unfolding after_loss set_conn
  lost e =
      let (idle, same) = finish_lost-ok _ (after_loss c x k.loop) s e in
      let x' : Conn = record x { reading = false } in
      let m1 = put k.loop.conns c (some x') in
      let m2 = put m1 c (some (broken x)) in
      let l = Links-erase k.loop.conn_table m2 k.loop.next_ptr x.conn_id (
        Links-put k.loop.conn_table m1 k.loop.next_ptr c x' (broken x) (put_self k.loop.conns c x')
          refl (Links-put k.loop.conn_table k.loop.conns k.loop.next_ptr c x x' at refl v.links)) in
      let w =
        Sound-conns k v (erase x.conn_id k.loop.conn_table) m2
          (conn_changed x.conn_id x.ip false ∷ k.loop.events)
          (λ j d there. (find_of_erase k.loop.conn_table there).1) l
          (λ d j f.
            let (present, out) = v.asked d j f in
            (
              Present-put m1 c (broken x) d (Present-put k.loop.conns c x' d present),
              λ i there. out i (ground (arith, there, find-erase i x.conn_id k.loop.conn_table)),
            )) in
      subst (λ n. Sound (record k { loop = n })) same
        (rw (idle-others_than x.conn_id k.loop.tasks k.loop.task_table idle) w)

  -- Bytes that arrive, while no request that is being written is answered.
  arrived :
      (content : List ℕ) (r : Received)
      → ((p : Ptr) → k.writing p ≡ true → s.tasks p ≡ k.loop.tasks p)
      → elim r [
        | received pkgs tcp ↦
            handle_pkgs x.conn_id pkgs (set_conn c (record x { tcp = tcp }) k.loop)
        | out_of_bounds ↦ fault
        | never_returns ↦ fault
      ]
        ≡ ok s
      → Sound (record k { loop = s })
  unfolding set_conn
  arrived content (received pkgs tcp) early e =
      let y : Conn = record x { tcp = tcp } in
      let k' : Client = record k { loop = set_conn c y k.loop } in
      let a = handle_pkgs-Reads x.conn_id pkgs k' s (kept-Sound y refl) e in
      record {
        running = a.sound.running;
        inited = a.sound.inited;
        placed = a.sound.placed;
        timed = a.sound.timed;
        links = a.sound.links;
        asked = a.sound.asked;
        attempts = a.sound.attempts;
        numbered = a.sound.numbered;
        small = a.sound.small;
        written = λ q on. elim (a.rest q on) [
          | inl still ↦ a.sound.written q still
          | inr (u, here, woken) ↦
              let (t, was, _, there, _) = v.written q on in
              let (_, asleep, _) = listed-asleep t.task_id q t v.placed there was in
              let e : some u ≡ some t = sym here ∙ early q on ∙ was in
              ground (arith, e, woken, asleep)
        ];
      }
  arrived content out_of_bounds early e = cc e
  arrived content never_returns early e = cc e

lose_conn-Sound :
    (k : Client) (s : ClientLoop) (c : Ptr)
    → Sound k
    → lose_conn c k.loop ≡ ok s
    → Sound (record k { loop = s })
lose_conn-Sound k s c v e = elim (Option-cases (k.loop.conns c)) [
  | inl absent ↦ let wrong : fault ≡ ok s = sym (lose_conn-none c k.loop absent) ∙ e in cc wrong
  | inr (x, at) ↦ lost k s v c x at (sym (lose_conn_lem c x k.loop at) ∙ e)
]

pub read_cb-Sound :
    (k : Client) (s : ClientLoop) (c : Ptr) (nread : Nread)
    → Sound k
    → ((p : Ptr) → k.writing p ≡ true → s.tasks p ≡ k.loop.tasks p)
    → read_cb c nread k.loop ≡ ok s
    → Sound (record k { loop = s })
unfolding read_cb read_content
read_cb-Sound k s c nothing v early e =
    let f : ok k.loop ≡ ok s = e in
    let same : k.loop ≡ s = cc f in subst (λ n. Sound (record k { loop = n })) same v
read_cb-Sound k s c (failed err) v early e = lose_conn-Sound k s c v e
read_cb-Sound k s c (bytes content) v early e =
    let (x, at, run) = with_conn-ok c k.loop s _ e in
    arrived k s v c x at content (receive x.tcp content) early run

-- A connection whose `close_cb` ends well is in memory.
pub close_cb-ok :
    (c : Ptr) (s s' : ClientLoop) → close_cb c s ≡ ok s' → (x : Conn) × (s.conns c ≡ some x)
unfolding close_cb
close_cb-ok c s s' e = let (x, at, _) = with_conn-ok c s s' _ e in (x, at)
