-- ===== src/Mcp/Client/Laws.antt =====
-- What a call of a tool comes to.
use agentcook.Prelude.{
  String, ◌≡◌, ◌⊎◌, refl, subst, true, false, List, [], ◌∷◌, none, some, All, map, str_eq, eq_iff,
  inl, inr, Bool-cases, Option-cases, arith,
}
use agentcook.Prelude.Results.{Error, Result, ok, raise}
use agentcook.Prelude.Dict
use agentcook.Prelude.Dict.{Dict}
use agentcook.Prelude.Members.{First, here, there}
use agentcook.Mcp.Client.{
  Server, McpToolSchema, McpToolAdapter, McpClient, bound, invoke, find_tool, call_tool, adapter_of,
  ToolResult, wrapped, content_of, listed, connect,
}

module _ (sv : Server) (World : Type 0) where
  open sv use {Arguments}

  module _ (name : String) where
    abbrev pub Named : McpToolAdapter sv World → Type 0
    Named tool = tool.schema.name ≡ name

    abbrev pub OtherName : McpToolAdapter sv World → Type 0
    OtherName tool = str_eq tool.schema.name name ≡ false

    find_tool-First :
        (tools : List (McpToolAdapter sv World)) (tool : McpToolAdapter sv World)
        → find_tool sv World name tools ≡ some tool
        → First Named OtherName tool tools
    unfolding find_tool
    find_tool-First [] tool h = absurd (ground (arith, h))
    find_tool-First (x ∷ xs) tool h = elim (Bool-cases (str_eq x.schema.name name)) [
      | inl e ↦
          let same : x ≡ tool = ground (arith, h, e) in
          subst (λ y. First Named OtherName y (x ∷ xs)) same
            (here xs ((eq_iff x.schema.name name).0 e))
      | inr e ↦ there x e (find_tool-First xs tool (ground (arith, h, e)))
    ]

    find_tool-All :
        (tools : List (McpToolAdapter sv World))
        → find_tool sv World name tools ≡ none
        → All OtherName tools
    unfolding find_tool
    find_tool-All [] h = tt
    find_tool-All (x ∷ xs) h = elim (Bool-cases (str_eq x.schema.name name)) [
      | inl e ↦ absurd (ground (arith, h, e))
      | inr e ↦ (e, find_tool-All xs (ground (arith, h, e)))
    ]

  Result-cases :
      {A : Type 0} (r : Result A) → ((a : A) × (r ≡ ok a)) ⊎ ((e : Error) × (r ≡ raise e))
  Result-cases (ok a) = inl (a, refl)
  Result-cases (raise e) = inr (e, refl)

  -- What a tool's result owes to the answer of the server: an exception, or an answer that is no dict,
  -- becomes a failure with its text; a dict becomes a success, with its content, or as a whole where it
  -- has none.
  abbrev pub Wraps : Result sv.Value → ToolResult sv.Value → Type 0
  Wraps (raise e) r = (r.success ≡ false) × (r.error ≡ some (sv.str_exc e))
  Wraps (ok raw) r =
      ((sv.items raw ≡ none)
        × (r.success ≡ false)
        × (r.error ≡ some (sv.str_exc (sv.not_dict raw))))
      ⊎ ((d : Dict sv.Value) × (sv.items raw ≡ some d)
          × (r.success ≡ true)
          × (((content : sv.Value) × (Dict.get "content" d ≡ some content)
                × (r.output ≡ some content))
              ⊎ ((Dict.get "content" d ≡ none) × (r.output ≡ some raw))))

  wrapped-Wraps :
      (tool : McpToolAdapter sv World) (answer : Result sv.Value)
      → Wraps answer (wrapped sv World tool (bound sv World answer))
  unfolding content_of
  wrapped-Wraps tool (raise e) = (refl, refl)
  wrapped-Wraps tool (ok raw) = elim (Option-cases (sv.items raw)) [
    | inl e ↦ inl (e, rw (e, content_of) refl, rw (e, content_of) refl)
    | inr (d, e) ↦ elim (Option-cases (Dict.get "content" d)) [
      | inl g ↦ inr (d, e, rw (e, g, content_of) refl, inr (g, rw (e, g, content_of) refl))
      | inr (x, g) ↦ inr (d, e, rw (e, g, content_of) refl, inl (x, g, rw (e, g, content_of) refl))
    ]
  ]

  named :
      {name : String} {tool : McpToolAdapter sv World} {tools : List (McpToolAdapter sv World)}
      → First (Named name) (OtherName name) tool tools
      → tool.schema.name ≡ name
  named (here xs h) = h
  named (there x m f) = named f

  invoke-Wraps :
      (c : McpClient sv World) (tool : McpToolAdapter sv World) (name : String)
      (arguments : Arguments) (world : World)
      → tool.schema.name ≡ name
      → ((invoke sv World c.transport tool arguments world).1
          ≡ (c.transport.call name arguments world).1)
        × Wraps
            (c.transport.call name arguments world).0
            (invoke sv World c.transport tool arguments world).0
  unfolding invoke
  invoke-Wraps c tool name arguments world h =
      subst
        (λ n.
          ((invoke sv World c.transport tool arguments world).1
            ≡ (c.transport.call n arguments world).1)
          × Wraps (c.transport.call n arguments world).0
              (invoke sv World c.transport tool arguments world).0)
        h (refl, wrapped-Wraps tool (c.transport.call tool.schema.name arguments world).0)

  -- `call_tool` never raises. The first tool of the name is called on the server, once: an exception of
  -- the call, or an answer that is no dict, becomes a failure with the exception's text, and a dict a
  -- success with its content, or with the whole dict where it has no content. With no tool of the name
  -- there is no call and no success.
  pub call_tool-First :
      (c : McpClient sv World) (name : String) (arguments : Arguments) (world : World)
      → ((tool : McpToolAdapter sv World) × First (Named name) (OtherName name) tool c.tools
          × ((call_tool sv World c name arguments world).1
              ≡ (c.transport.call name arguments world).1)
          × Wraps
              (c.transport.call name arguments world).0
              (call_tool sv World c name arguments world).0)
        ⊎ (All (OtherName name) c.tools
            × ((call_tool sv World c name arguments world).1 ≡ world)
            × ((call_tool sv World c name arguments world).0.success ≡ false))
  unfolding call_tool
  call_tool-First c name arguments world = elim (Option-cases (find_tool sv World name c.tools)) [
    | inl e ↦ inr (find_tool-All name c.tools e, ground (arith, e), ground (arith, e))
    | inr (tool, e) ↦
        let found = find_tool-First name c.tools tool e in
        let (moved, wraps) = invoke-Wraps c tool name arguments world (named found) in
        inl (tool, found, rw (e, call_tool) moved, rw (e, call_tool) wraps)
  ]

  -- After a `connect` that returns, the tools of the client are those that the server lists, in their
  -- order, under the client's name; a `connect` that raises leaves them as they were.
  pub connect-tools :
      (c : McpClient sv World) (world : World)
      → (((schemas : List (McpToolSchema sv World)) × ((connect sv World c world).0 ≡ ok tt)
          × ((c.transport.list_tools (c.transport.connect_to c.config world).1).0 ≡ ok schemas)
          × ((connect sv World c world).1.tools ≡ map (adapter_of sv World c.name) schemas)))
        ⊎ ((e : Error) × ((connect sv World c world).0 ≡ raise e)
            × ((connect sv World c world).1.tools ≡ c.tools))
  unfolding connect listed
  connect-tools c world = elim (Result-cases (c.transport.connect_to c.config world).0) [
    | inr (e, x) ↦ inr (e, ground (arith, x), ground (arith, x))
    | inl (u, x) ↦
        elim (Result-cases (c.transport.list_tools (c.transport.connect_to c.config world).1).0) [
          | inl (schemas, y) ↦ inl (schemas, ground (arith, x, y), y, ground (arith, x, y))
          | inr (e, y) ↦ inr (e, ground (arith, x, y), ground (arith, x, y))
        ]
  ]
