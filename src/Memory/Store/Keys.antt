-- ===== src/Memory/Store/Keys.antt =====
-- The compound keys of one agent tell layers and keys apart.
use Prim.Native.Char.{code}
use Prim.Native.String
use text.Mathlib.TextLemmas.{append_cancel_left, cons-append, cons≢nil, append-nil}
use agentcook.Prelude.{ℕ, String, ◌≡◌, ◌≢◌, refl, ap, sym, ◌∙◌, ◌∷◌, [], arith}
use agentcook.Prelude.Strings.{fmt}
use agentcook.Memory.Entry.{MemoryLayer, layer_value, identity, soul, memory, diary}
use agentcook.Memory.Store.{agent_key}

layer_key : MemoryLayer → String → String
layer_key layer key = fmt (layer_value layer ∷ ":" ∷ key ∷ [])

-- The first letter, which tells the layers apart.
abbrev initial : String → ℕ
initial String.[] = 0
initial (String.◌∷◌ c t) = code c

initial-append : (s t : String) → s ≢ "" → initial (String.◌++◌ s t) ≡ initial s
initial-append String.[] t h = absurd (h refl)
initial-append (String.◌∷◌ c s) t h = ap initial (cons-append c s t)

initial-layer : (l : MemoryLayer) (k : String) → initial (layer_key l k) ≡ initial (layer_value l)
unfolding layer_key
initial-layer identity k = initial-append "identity" (String.◌++◌ ":" (String.◌++◌ k "")) cons≢nil
initial-layer soul k = initial-append "soul" (String.◌++◌ ":" (String.◌++◌ k "")) cons≢nil
initial-layer memory k = initial-append "memory" (String.◌++◌ ":" (String.◌++◌ k "")) cons≢nil
initial-layer diary k = initial-append "diary" (String.◌++◌ ":" (String.◌++◌ k "")) cons≢nil

key_of : (l : MemoryLayer) (k k' : String) → layer_key l k ≡ layer_key l k' → k ≡ k'
unfolding layer_key
key_of l k k' e =
    let e' = append_cancel_left (layer_value l) _ _ e in
    let e'' = append_cancel_left ":" _ _ e' in sym (append-nil k) ∙ e'' ∙ append-nil k'

layer_of : (l l' : MemoryLayer) (k k' : String) → layer_key l k ≡ layer_key l' k' → l ≡ l'
layer_of identity identity k k' e = refl
layer_of soul soul k k' e = refl
layer_of memory memory k k' e = refl
layer_of diary diary k k' e = refl
layer_of l l' k k' e = absurd (omega (arith, ap initial e, initial-layer l k, initial-layer l' k'))

-- Two entries of one agent have the same compound key only if layer and key are the same.
pub agent_key-inj :
    (agent : String) (l l' : MemoryLayer) (k k' : String)
    → agent_key agent l k ≡ agent_key agent l' k'
    → (l ≡ l') × (k ≡ k')
unfolding agent_key layer_key
agent_key-inj agent l l' k k' e =
    let e' = append_cancel_left agent _ _ e in
    let e'' : layer_key l k ≡ layer_key l' k' = append_cancel_left ":" _ _ e' in
    let same = layer_of l l' k k' e'' in
    (same, key_of l' k k' (ap (λ z. layer_key z k) (sym same) ∙ e''))
