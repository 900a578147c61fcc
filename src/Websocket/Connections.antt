-- ===== src/Websocket/Connections.antt =====
-- Which connections an event reaches, after any history of the hub.
use llm_dating_app.Prelude.{
  ℕ, zero, suc, ◌+◌, ◌≡◌, refl, ◌∙◌, Bool, true, false, not, ◌&&◌, ◌||◌, List, [], ◌∷◌, ◌++◌, map,
  arith, ◌==◌, if◌then◌else◌, count_where,
}
use llm_dating_app.Websocket.{ServerEvent}
use llm_dating_app.Websocket.Client.{Client, enqueue}
use llm_dating_app.Websocket.Hub.{
  enqueue_all, Sockets, Socket, is_socket, Connected, connections, register_socket,
  unregister_socket,
}

pub data Change : Type 0 where
  joined_hub left_hub : Socket → Change

pub changed : Change → Connected → Connected
changed (joined_hub s) h = register_socket s h
changed (left_hub s) h = unregister_socket s h

unfoldable pub history : List Change → Connected → Connected
unfolding changed
history [] h = h
history (x ∷ xs) h = history xs (changed x h)

-- What a history makes of a connection: whether the last change that names it registers it.
unfoldable pub is_connected : Socket → List Change → Bool → Bool
is_connected s [] b = b
is_connected s (joined_hub t ∷ xs) b = is_connected s xs (b || is_socket s t)
is_connected s (left_hub t ∷ xs) b = is_connected s xs (b && not (is_socket s t))

abbrev bit : Bool → ℕ
bit b = if b then 1 else 0

abbrev pub occurrences : ℕ → List ℕ → ℕ
occurrences n = count_where (λ i. i == n)

abbrev copies : Socket → Connected → ℕ
copies s h = occurrences s.id (connections (h s.user_id))

pub count_where-append :
    (p : Socket → Bool) (xs ys : List Socket)
    → count_where p (xs ++ ys) ≡ count_where p xs + count_where p ys
count_where-append p [] ys = omega arith
count_where-append p (x ∷ xs) ys = ground (arith, count_where-append p xs ys)

pub count_where-sockets :
    (s : Socket) (user : ℕ) (ids : List ℕ)
    → count_where (is_socket s) (map (λ id. record { user_id = user; id = id }) ids)
      ≡ (if s.user_id == user then occurrences s.id ids else 0)
count_where-sockets s user [] = ground arith
count_where-sockets s user (i ∷ ids) = ground (arith, count_where-sockets s user ids)

abbrev pub times : ℕ → (Client → Client) → Client → Client
times zero f c = c
times (suc n) f c = times n f (f c)

times-if :
    (b : Bool) (n : ℕ) (f : Client → Client) (c : Client)
    → times n f (if b then f c else c) ≡ times (if b then suc n else n) f c
times-if true n f c = refl
times-if false n f c = refl

pub enqueue_all-clients :
    (pick : Socket → Bool) (event : ServerEvent) (s : Socket) (ss : List Socket) (w : Sockets)
    → (enqueue_all pick event ss w).clients s
      ≡ times (count_where (is_socket s) ss) (λ c. (enqueue (pick s) event c).1) (w.clients s)
unfolding enqueue_all
enqueue_all-clients pick event s [] w = refl
enqueue_all-clients pick event s (t ∷ ss) w =
    enqueue_all-clients pick event s ss (record w {
      clients =
          λ r. if is_socket r t then (enqueue (pick r) event (w.clients r)).1 else w.clients r;
    })
    ∙ times-if (is_socket s t) (count_where (is_socket s) ss) (λ c. (enqueue (pick s) event c).1)
        (w.clients s)
