-- ===== src/Codegen/Emit.antt =====
-- Emitting one chunk into two sinks, and the sink that only logs, which serves as the reference.
use libload.Common.{
  pure, ◌-64◌, ◌>>=◌, [], ◌∷◌, sym, ℕ, ◌≡◌, refl, subst, List, ◌++◌, Eff, Result, ok, throw, ◌+64◌,
  and_then, ◌∙◌,
}
use libload.Codegen.Imm.{append_imm32}
use libload.Codegen.Chunk.{
  distance_from, CodeSink, CodeLocation, CodeChunk, code_chunk_literal, fixed_code_chunk,
  code_block, relative_call, CodeChunks, nil, cons, emit_data, emit_relative_call, emit, emit_loop,
}

-- A sink that keeps every byte that it is given.
abbrev pub log_sink : CodeSink (List ℕ)
log_sink = record { append = λ d out. (ok tt, out ++ d) }

module _ {S T : Type 0} (σ : CodeSink S) (τ : CodeSink T) (R : S → T → Type 0)
    (keep : (d : List ℕ) (s : S) (t : T)
      → R s t
      → ((σ.append d s).0 ≡ ok tt)
        × ((τ.append d t).0 ≡ ok tt)
        × R (σ.append d s).1 (τ.append d t).1) where
  abbrev pub Agree : {A : Type 0} → Result A × S → Result A × T → Type 0
  Agree r q = (r.0 ≡ q.0) × R r.1 q.1

  bind-Agree :
      {A B : Type 0} (k : A → Eff S B) (k' : A → Eff T B) (r : Result A × S) (q : Result A × T)
      → ((a : A) (s : S) (t : T) → R s t → Agree (k a s) (k' a t))
      → Agree r q
      → Agree (and_then r k) (and_then q k')
  bind-Agree {A} k k' (r, s) (q, t) next (e, x) =
      subst (λ q'. Agree (and_then (r, s) k) (and_then (q', t) k')) e (same r)
    where
      same : (r' : Result A) → Agree (and_then (r', s) k) (and_then (r', t) k')
      same (ok a) = next a s t x
      same (throw err) = (refl, x)

  emit_data-Agree : (d : List ℕ) (s : S) (t : T) → R s t → Agree (emit_data d σ s) (emit_data d τ t)
  unfolding emit_data
  emit_data-Agree d s t x =
      let (e, e', x') = keep d s t x in
      bind-Agree _ _ (σ.append d s) (τ.append d t) (λ a s' t' y. (refl, y)) (e ∙ sym e', x')

  emit_relative_call-Agree :
      (set_params : List ℕ) (target : CodeLocation) (location : ℕ) (s : S) (t : T)
      → R s t
      → Agree
          (emit_relative_call set_params target location σ s)
          (emit_relative_call set_params target location τ t)
  unfolding emit_relative_call
  emit_relative_call-Agree set_params target location s t x =
      bind-Agree (emit_call σ) (emit_call τ) _ _
        (λ n s' t' y.
          bind-Agree (put σ n) (put τ n) (call_code n, s') (call_code n, t')
            (λ chunk s'' t'' z.
              bind-Agree (λ k. pure (n +64 k)) (λ k. pure (n +64 k)) _ _ (λ k s3 t3 u. (refl, u))
                (emit_data-Agree chunk s'' t'' z))
            (refl, y))
        (emit_data-Agree set_params s t x)
    where
      call_code : ℕ → Result (List ℕ)
      call_code n = append_imm32 (distance_from target (location +64 n) -64 5) (0xe8 ∷ [])

      put : {W : Type 0} → CodeSink W → ℕ → List ℕ → Eff W ℕ
      put sink n chunk = emit_data chunk sink >>= λ k. pure (n +64 k)

      emit_call : {W : Type 0} → CodeSink W → ℕ → Eff W ℕ
      emit_call sink n = λ w. and_then (call_code n, w) (put sink n)

  -- The two runs end alike, with the same count or exception, in related states.
  mutual
    unfolding emit

    pub emit-Agree :
        (c : CodeChunk) (location : ℕ) (s : S) (t : T)
        → R s t
        → Agree (emit c location σ s) (emit c location τ t)
    emit-Agree (code_chunk_literal d) location s t x = emit_data-Agree d s t x
    emit-Agree (fixed_code_chunk d) location s t x = emit_data-Agree d s t x
    emit-Agree (code_block cs) location s t x = emit_loop-Agree cs location 0 s t x
    emit-Agree (relative_call set_params target) location s t x =
        emit_relative_call-Agree set_params target location s t x

    pub emit_loop-Agree :
        (cs : CodeChunks) (location n : ℕ) (s : S) (t : T)
        → R s t
        → Agree (emit_loop cs location n σ s) (emit_loop cs location n τ t)
    emit_loop-Agree nil location n s t x = (refl, x)
    emit_loop-Agree (cons c cs) location n s t x =
        bind-Agree (λ k. emit_loop cs location (n +64 k) σ) (λ k. emit_loop cs location (n +64 k) τ)
          _ _ (λ k s' t' y. emit_loop-Agree cs location (n +64 k) s' t' y)
          (emit-Agree c (location +64 n) s t x)
