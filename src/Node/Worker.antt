-- ===== src/Node/Worker.antt =====
-- A thread that works through a sequence of packets, one action at a time, on a state that others
-- change as well, but not its own part of it.
use mathlib.Core.Path.{subst}
use ros2sonic.Prelude.{◌≡◌, refl, sym, ap, ◌∙◌, List, [], ◌∷◌, ◌⊎◌, inl, inr}
use ros2sonic.Outcome.{Outcome, ok, throw, fault, hang, ◌>>=◌}

-- The actions of the packet at work, and the packets behind it.
pub record Thread (A P : Type 0) : Type 0 where
  pub todo : List A
  pub packets : List P

abbrev pub done : {A P : Type 0} → Thread A P
done = record { todo = []; packets = [] }

abbrev pub mapped : {S V : Type 0} → (S → V) → Outcome S → Outcome V
mapped f m = m >>= λ s. ok (f s)

-- Where the code returns, what it returns has `P`.
abbrev pub IfOk : {S : Type 0} → (S → Type 0) → Outcome S → Type 0
IfOk P (ok s) = P s
IfOk P (throw e) = Unit
IfOk P fault = Unit
IfOk P hang = Unit

-- Only code that returns goes on to return.
returns :
    {X Y : Type 0} (m : Outcome X) (f : X → Outcome Y) (y : Y)
    → (m >>= f) ≡ ok y
    → (x : X) × (m ≡ ok x) × (f x ≡ ok y)
returns (ok x) f y e = (x, refl, e)
returns (throw x) f y e = absurd (cc e)
returns fault f y e = absurd (cc e)
returns hang f y e = absurd (cc e)

module _ {S A P : Type 0} (act : A → S → Outcome S) (code : P → Outcome (List A)) where
  -- The thread alone.
  abbrev pub run : List A → S → Outcome S
  run [] s = ok s
  run (a ∷ rest) s = act a s >>= run rest

  abbrev pub each : List P → S → Outcome S
  each [] s = ok s
  each (p ∷ ps) s = code p >>= λ rest. run rest s >>= each ps

  abbrev pub alone : Thread A P → S → Outcome S
  alone th s = run th.todo s >>= each th.packets

  -- One move: an action, or the start of the next packet.
  pub data Move : Thread A P → S → Thread A P → S → Type 0 where
    does :
        {a : A} {rest : List A} {ps : List P} {s s' : S}
        → act a s ≡ ok s'
        → Move
            (record { todo = a ∷ rest; packets = ps })
            s
            (record { todo = rest; packets = ps })
            s'
    begins :
        {p : P} {rest : List A} {ps : List P} {s : S}
        → code p ≡ ok rest
        → Move (record { todo = []; packets = p ∷ ps }) s (record { todo = rest; packets = ps }) s

  pub alone-Move : {th th' : Thread A P} {s s' : S} → Move th s th' s' → alone th s ≡ alone th' s'
  alone-Move (does e) = rw e
  alone-Move (begins e) = rw e

  -- Nothing is left to do, or there is a move.
  abbrev pub IsFree : Thread A P → S → Type 0
  IsFree th s = (th ≡ done) ⊎ ((th' : Thread A P) × (s' : S) × Move th s th' s')

  -- Moves, one after the other.
  pub data Moves : Thread A P → S → Thread A P → S → Type 0 where
    no_move : {th : Thread A P} {s : S} → Moves th s th s
    first_move :
        {th th' th'' : Thread A P} {s s' s'' : S}
        → Move th s th' s'
        → Moves th' s' th'' s''
        → Moves th s th'' s''

  moves :
      (todo : List A) (packets : List P) (s s' : S)
      → (run todo s >>= each packets) ≡ ok s'
      → Moves (record { todo = todo; packets = packets }) s done s'
  moves [] [] s s' e = let same : s ≡ s' = cc e in subst (λ t. Moves done s done t) same no_move
  moves [] (p ∷ ps) s s' e =
      let (rest, c, e') = returns (code p) (λ rest. run rest s >>= each ps) s' e in
      first_move (begins c) (moves rest ps s s' e')
  moves (a ∷ rest) ps s s' e =
      let (m, b, e') = returns (run (a ∷ rest) s) (each ps) s' e in
      let (t, c, b') = returns (act a s) (run rest) m b in
      first_move (does c) (moves rest ps t s' (ap (λ o. o >>= each ps) b' ∙ e'))

  -- A thread that ends when it is alone comes to its end by its moves, and can make the first one.
  pub alone-Moves : (th : Thread A P) (s s' : S) → alone th s ≡ ok s' → Moves th s done s'
  alone-Moves th s s' e = moves th.todo th.packets s s' e

  Moves-IsFree : {th : Thread A P} {s s' : S} → Moves th s done s' → IsFree th s
  Moves-IsFree no_move = inl refl
  Moves-IsFree (first_move m ms) = inr (_, _, m)

  pub alone-IsFree : (th : Thread A P) (s s' : S) → alone th s ≡ ok s' → IsFree th s
  alone-IsFree th s s' e = Moves-IsFree (alone-Moves th s s' e)

mapped-bind :
    {S V : Type 0} (view : S → V) (m : Outcome S) (f : S → Outcome S) (g : V → Outcome V)
    → ((s : S) → mapped view (f s) ≡ g (view s))
    → mapped view (m >>= f) ≡ (mapped view m >>= g)
mapped-bind view (ok s) f g h = h s
mapped-bind view (throw e) f g h = refl
mapped-bind view fault f g h = refl
mapped-bind view hang f g h = refl

pub mapped-same :
    {X S V : Type 0} (view : S → V) (m : Outcome X) (f : X → Outcome S) (g : X → Outcome V)
    → ((x : X) → mapped view (f x) ≡ g x)
    → mapped view (m >>= f) ≡ (m >>= g)
mapped-same view (ok x) f g h = h x
mapped-same view (throw e) f g h = refl
mapped-same view fault f g h = refl
mapped-same view hang f g h = refl

pub IfOk-bind :
    {X S : Type 0} (P : S → Type 0) (m : Outcome X) (f : X → Outcome S)
    → ((x : X) → IfOk P (f x))
    → IfOk P (m >>= f)
IfOk-bind P (ok x) f h = h x
IfOk-bind P (throw e) f h = tt
IfOk-bind P fault f h = tt
IfOk-bind P hang f h = tt

-- The thread's own part of the state, and its actions on that part alone.
module _ {S V A P : Type 0} (act : A → S → Outcome S) (code : P → Outcome (List A)) (view : S → V)
    (part : A → V → Outcome V)
    (law : (a : A) (s : S) → mapped view (act a s) ≡ part a (view s)) where
  run-part :
      (rest : List A) (s : S) → mapped view (run act code rest s) ≡ run part code rest (view s)
  run-part [] s = refl
  run-part (a ∷ rest) s =
      mapped-bind view (act a s) (run act code rest) (run part code rest) (run-part rest)
      ∙ ap (λ m. m >>= run part code rest) (law a s)

  each-part : (ps : List P) (s : S) → mapped view (each act code ps s) ≡ each part code ps (view s)
  each-part [] s = refl
  each-part (p ∷ ps) s =
      mapped-same view (code p) (λ rest. run act code rest s >>= each act code ps)
        (λ rest. run part code rest (view s) >>= each part code ps)
        (λ rest.
          mapped-bind view (run act code rest s) (each act code ps) (each part code ps)
            (each-part ps)
          ∙ ap (λ m. m >>= each part code ps) (run-part rest s))

  -- What the thread makes of its part depends on nothing else.
  pub alone-part :
      (th : Thread A P) (s : S) → mapped view (alone act code th s) ≡ alone part code th (view s)
  alone-part th s =
      mapped-bind view (run act code th.todo s) (each act code th.packets)
        (each part code th.packets) (each-part th.packets)
      ∙ ap (λ m. m >>= each part code th.packets) (run-part th.todo s)

  Move-part :
      {th th' : Thread A P} {s s' : S}
      → Move act code th s th' s'
      → Move part code th (view s) th' (view s')
  Move-part (does {a = a} {s = s} e) = does (sym (law a s) ∙ ap (mapped view) e)
  Move-part (begins e) = begins e

  -- A move takes the thread no nearer to another result.
  pub part-Move :
      {th th' : Thread A P} {s s' : S}
      → Move act code th s th' s'
      → alone part code th (view s) ≡ alone part code th' (view s')
  part-Move m = alone-Move part code (Move-part m)

  pub part-IsFree :
      (th : Thread A P) (s : S) (v : V) → alone part code th (view s) ≡ ok v → IsFree act code th s
  part-IsFree th s v e =
      let (s', r, same) =
        returns (alone act code th s) (λ t. ok (view t)) v (alone-part th s ∙ e) in
      alone-IsFree act code th s s' r

  pub part-Moves :
      (th : Thread A P) (s : S) (v : V)
      → alone part code th (view s) ≡ ok v
      → (s' : S) × Moves act code th s done s'
  part-Moves th s v e =
      let (s', r, same) =
        returns (alone act code th s) (λ t. ok (view t)) v (alone-part th s ∙ e) in
      (s', alone-Moves act code th s s' r)

  -- When the thread has nothing left to do, its part is what it makes of it alone.
  pub part-done :
      (th : Thread A P) (s : S) (v : V)
      → th ≡ done
      → alone part code th (view s) ≡ ok v
      → view s ≡ v
  part-done th s v e r = cc (sym (ap (λ t. alone part code t (view s)) e) ∙ r)

-- What another thread's moves do not change.
pub keeps-Move :
    {S V A P : Type 0} {act : A → S → Outcome S} {code : P → Outcome (List A)} {th th' : Thread A P}
    {s s' : S} (other : S → V)
    → ((a : A) (s : S) → IfOk (λ t. other t ≡ other s) (act a s))
    → Move act code th s th' s'
    → other s' ≡ other s
keeps-Move other keep (does {a = a} {s = s} e) = subst (IfOk (λ t. other t ≡ other s)) e (keep a s)
keeps-Move other keep (begins e) = refl

-- One call for each packet.
abbrev pub in_turn : {S P : Type 0} → (P → S → Outcome S) → List P → S → Outcome S
in_turn f [] s = ok s
in_turn f (p ∷ ps) s = f p s >>= in_turn f ps

bind_assoc :
    {X S : Type 0} (m : Outcome X) (f : X → Outcome S) (g h : S → Outcome S)
    → ((s : S) → g s ≡ h s)
    → (m >>= λ x. f x >>= g) ≡ ((m >>= f) >>= h)
bind_assoc {S = S} (ok x) f g h e = last (f x)
  where
    last : (m : Outcome S) → (m >>= g) ≡ (m >>= h)
    last (ok s) = e s
    last (throw x) = refl
    last fault = refl
    last hang = refl
bind_assoc (throw x) f g h e = refl
bind_assoc fault f g h e = refl
bind_assoc hang f g h e = refl

-- Two ways to go on after the same code, which may use what it returned.
pub through :
    {X Y S : Type 0} (m : Outcome X) (f : X → Outcome Y) (k : Y → Outcome S) (g : X → Outcome S)
    → ((x : X) → m ≡ ok x → (f x >>= k) ≡ g x)
    → ((m >>= f) >>= k) ≡ (m >>= g)
through (ok x) f k g h = h x refl
through (throw e) f k g h = refl
through fault f k g h = refl
through hang f k g h = refl

-- The thread makes the calls, if its actions for a packet are those of the call.
pub each-in_turn :
    {S A P : Type 0} (act : A → S → Outcome S) (code : P → Outcome (List A)) (f : P → S → Outcome S)
    → ((p : P) (s : S) → (code p >>= λ rest. run act code rest s) ≡ f p s)
    → (ps : List P) (s : S) → each act code ps s ≡ in_turn f ps s
each-in_turn act code f h [] s = refl
each-in_turn act code f h (p ∷ ps) s =
    bind_assoc (code p) (λ rest. run act code rest s) (each act code ps) (in_turn f ps)
      (each-in_turn act code f h ps)
    ∙ ap (λ m. m >>= in_turn f ps) (h p s)
