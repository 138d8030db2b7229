-- ===== src/Fallback/Laws.antt =====
-- At which provider a call of the chain ends.
use mathlib.Core.List.{append_assoc}
use agentcook.Prelude.{
  String, ◌≡◌, refl, ap, sym, ◌∙◌, ◌⊎◌, inl, inr, Bool, true, false, List, [], ◌∷◌, ◌++◌, Option,
  none, some, Bool-cases, Option-cases, arith,
}
use agentcook.Prelude.Members.{In}
use agentcook.Fallback.Chain.{
  Failure, Reply, answered, failed, Provider, FallbackProvider, is_retryable, chat_loop, chat,
  stream_loop, stream_chat,
}

module _ {Request Response Chunk World : Type 0} (lower : String → String)
    (contains : String → String → Bool) (f : FallbackProvider Request Response Chunk World)
    (request : Request) where
  abbrev Chain : Type 0
  Chain = List (Provider Request Response Chunk World)

  Reply-cases :
      (r : Reply Response) → ((x : Response) × (r ≡ answered x)) ⊎ ((e : Failure) × (r ≡ failed e))
  Reply-cases (answered x) = inl (x, refl)
  Reply-cases (failed e) = inr (e, refl)

  -- A call of `chat` falls through from one provider, with those after it, to another: each on the
  -- way fails with a retryable failure.
  pub data Falls
      : Provider Request Response Chunk World
        → Chain
        → World
        → Provider Request Response Chunk World
        → Chain
        → World
        → Type 0 where
    here :
        (p : Provider Request Response Chunk World) (ps : Chain) (w : World) → Falls p ps w p ps w
    next :
        {p n q : Provider Request Response Chunk World} {ps qs : Chain} {w w' : World} (e : Failure)
        → (p.chat request w).0 ≡ failed e
        → is_retryable lower contains f e ≡ true
        → Falls n ps (p.chat request w).1 q qs w'
        → Falls p (n ∷ ps) w q qs w'

  -- A reply at which the call ends: an answer, a failure that is not retryable, or the last
  -- provider's.
  abbrev pub EndsWith : Reply Response → Chain → Type 0
  EndsWith reply qs =
      ((x : Response) × (reply ≡ answered x))
      ⊎ (((e : Failure) × (reply ≡ failed e) × (is_retryable lower contains f e ≡ false))
          ⊎ (qs ≡ []))

  Ends : Provider Request Response Chunk World → Chain → World → Type 0
  Ends p ps w =
      (q : Provider Request Response Chunk World) × (qs : Chain) × (w' : World) × Falls p ps w q qs
        w'
      × (chat_loop lower contains f p ps request w ≡ q.chat request w')
      × EndsWith (q.chat request w').0 qs

  chat_loop-Ends :
      (p : Provider Request Response Chunk World) (ps : Chain) (w : World) → Ends p ps w
  unfolding Ends chat_loop
  chat_loop-Ends p [] w = (p, [], w, here p [] w, refl, inr (inr refl))
  chat_loop-Ends p (n ∷ ps) w = elim (Reply-cases (p.chat request w).0) [
    | inl (x, a) ↦ (p, n ∷ ps, w, here p (n ∷ ps) w, ground (arith, a), inl (x, a))
    | inr (e, bad) ↦ elim (Bool-cases (is_retryable lower contains f e)) [
      | inl again ↦
          let (q, qs, w', falls, same, ends) = chat_loop-Ends n ps (p.chat request w).1 in
          (q, qs, w', next e bad again falls, ground (arith, bad, again, same), ends)
      | inr final ↦
          (p, n ∷ ps, w, here p (n ∷ ps) w, ground (arith, bad, final), inr (inl (e, bad, final)))
    ]
  ]

  -- `chat` answers what one provider of the chain answers, whom the call reaches after all before it
  -- failed with a retryable failure: it answers, or fails for good, or is the last.
  pub chat-Falls :
      (w : World)
      → (q : Provider Request Response Chunk World) × (qs : Chain) × (w' : World) × Falls f.first
          f.others w q qs w'
        × (chat lower contains f request w ≡ q.chat request w')
        × EndsWith (q.chat request w').0 qs
  unfolding chat Ends
  chat-Falls w = chat_loop-Ends f.first f.others w

  chat_loop-answered :
      (q : Provider Request Response Chunk World)
      → ((e : Failure) → is_retryable lower contains f e ≡ true)
      → ((w : World) → (x : Response) × ((q.chat request w).0 ≡ answered x))
      → (p : Provider Request Response Chunk World) (ps : Chain) (w : World) → In q (p ∷ ps)
      → (x : Response) × ((chat_loop lower contains f p ps request w).0 ≡ answered x)
  unfolding chat_loop
  chat_loop-answered q again answers p [] w (inl e) =
      let (x, a) = answers w in (x, ap (λ z. (z.chat request w).0) (sym e) ∙ a)
  chat_loop-answered q again answers p [] w (inr i) = elim i [ ]
  chat_loop-answered q again answers p (n ∷ ps) w i = elim (Reply-cases (p.chat request w).0) [
    | inl (x, a) ↦ (x, ground (arith, a))
    | inr (e, bad) ↦ elim i [
      | inl same ↦
          let (x, a) = answers w in
          (x, ground (arith, again e, bad, ap (λ z. (z.chat request w).0) same, a))
      | inr later ↦
          let (x, a) = chat_loop-answered q again answers n ps (p.chat request w).1 later in
          (x, ground (arith, again e, bad, a))
    ]
  ]

  -- If every failure is retryable and some provider of the chain always answers, `chat` answers.
  pub chat-answered :
      (q : Provider Request Response Chunk World) (w : World)
      → ((e : Failure) → is_retryable lower contains f e ≡ true)
      → ((w' : World) → (x : Response) × ((q.chat request w').0 ≡ answered x))
      → In q (f.first ∷ f.others)
      → (x : Response) × ((chat lower contains f request w).0 ≡ answered x)
  unfolding chat
  chat-answered q w again answers i = chat_loop-answered q again answers f.first f.others w i

  -- As `Falls`, with the chunks that those on the way yielded before they failed.
  pub data Passes
      : Provider Request Response Chunk World
        → Chain
        → World
        → List Chunk
        → Provider Request Response Chunk World
        → Chain
        → World
        → Type 0 where
    at_once :
        (p : Provider Request Response Chunk World) (ps : Chain) (w : World)
        → Passes p ps w [] p ps w
    after :
        {p n q : Provider Request Response Chunk World} {ps qs : Chain} {w w' : World}
        {yielded : List Chunk} (e : Failure)
        → (p.stream_chat request w).0.ending ≡ some e
        → is_retryable lower contains f e ≡ true
        → Passes n ps (p.stream_chat request w).1 yielded q qs w'
        → Passes p (n ∷ ps) w ((p.stream_chat request w).0.chunks ++ yielded) q qs w'

  -- Where a run of the chain ends: with the provider's last chunk, with a failure that is not
  -- retryable, or at the last provider.
  abbrev pub StopsWith : Option Failure → Chain → Type 0
  StopsWith ending qs =
      (ending ≡ none)
      ⊎ (((e : Failure) × (ending ≡ some e) × (is_retryable lower contains f e ≡ false))
          ⊎ (qs ≡ []))

  Stops : Provider Request Response Chunk World → Chain → World → Type 0
  Stops p ps w =
      (yielded : List Chunk) × (q : Provider Request Response Chunk World) × (qs : Chain)
      × (w' : World) × Passes p ps w yielded q qs w'
      × ((stream_loop lower contains f p ps request w).0.chunks
          ≡ yielded ++ (q.stream_chat request w').0.chunks)
      × ((stream_loop lower contains f p ps request w).0.ending
          ≡ (q.stream_chat request w').0.ending)
      × StopsWith (q.stream_chat request w').0.ending qs

  stream_loop-Stops :
      (p : Provider Request Response Chunk World) (ps : Chain) (w : World) → Stops p ps w
  unfolding Stops stream_loop
  stream_loop-Stops p [] w = ([], p, [], w, at_once p [] w, refl, refl, inr (inr refl))
  stream_loop-Stops p (n ∷ ps) w = elim (Option-cases (p.stream_chat request w).0.ending) [
    | inl done ↦ (
      [],
      p,
      n ∷ ps,
      w,
      at_once p (n ∷ ps) w,
      ground (arith, done),
      ground (arith, done),
      inl done,
    )
    | inr (e, bad) ↦ elim (Bool-cases (is_retryable lower contains f e)) [
      | inl again ↦
          let (yielded, q, qs, w', passes, chunks, ending, stops) =
            stream_loop-Stops n ps (p.stream_chat request w).1 in
          (
            (p.stream_chat request w).0.chunks ++ yielded,
            q,
            qs,
            w',
            after e bad again passes,
            ground (
              arith,
              bad,
              again,
              chunks,
              append_assoc (p.stream_chat request w).0.chunks yielded
                  (q.stream_chat request w').0.chunks,
            ),
            ground (arith, bad, again, ending),
            stops,
          )
      | inr final ↦ (
        [],
        p,
        n ∷ ps,
        w,
        at_once p (n ∷ ps) w,
        ground (arith, bad, final),
        ground (arith, bad, final),
        inr (inl (e, bad, final)),
      )
    ]
  ]

  -- `stream_chat` yields what one provider of the chain yields and ends as it does, but before that
  -- come all chunks that the providers before it yielded until they failed with a retryable failure.
  pub stream_chat-Passes :
      (w : World)
      → (yielded : List Chunk) × (q : Provider Request Response Chunk World) × (qs : Chain)
        × (w' : World) × Passes f.first f.others w yielded q qs w'
        × ((stream_chat lower contains f request w).0.chunks
            ≡ yielded ++ (q.stream_chat request w').0.chunks)
        × ((stream_chat lower contains f request w).0.ending ≡ (q.stream_chat request w').0.ending)
        × StopsWith (q.stream_chat request w').0.ending qs
  unfolding stream_chat Stops
  stream_chat-Passes w = stream_loop-Stops f.first f.others w
