-- ===== src/Scheduler/Handles.antt =====
-- src/scheduler/Scheduler.cpp: handles are unique, and the operations by handle.
use amlp.Base.{
  ℕ, suc, ◌+◌, ◌≤◌, ◌<◌, List, [], ◌∷◌, ◌++◌, ◌≡◌, ◌≢◌, refl, ◌==◌, ◌∙◌, Bool-cases, inl, inr,
  arith, ==_iff,
}
use amlp.Base.Int.{pos, negsuc}
use amlp.Scheduler.{
  CallOutEntry, Scheduler, new_call_out_handle, add_call_out, remove_first, find_first, has_handle,
  remaining_seconds, remove_call_out_by_handle, find_call_out_by_handle,
}
use amlp.Scheduler.Sublists.{Sublist, empty, keep, skip, remove_first-Sublist}

module _ {V : Type 0} where
  -- The handles ascend, from `low` on and below `high`.
  abbrev pub Between : (low high : ℕ) → List (CallOutEntry V) → Type 0
  Between low high [] = low ≤ high
  Between low high (e ∷ es) = (low ≤ e.handle) × Between (suc e.handle) high es

  -- Handles are given from 1 on, and the pending entries stand in the order of their handles.
  abbrev pub IsOrdered : Scheduler V → Type 0
  IsOrdered s = Between 1 s.next_handle s.call_outs

  Between-lower :
      (low low' high : ℕ) (es : List (CallOutEntry V))
      → low ≤ low'
      → Between low' high es
      → Between low high es
  Between-lower low low' high [] h b = omega arith
  Between-lower low low' high (e ∷ es) h b = (omega (arith, b.0), b.1)

  pub Sublist-Between :
      (low high : ℕ) {xs ys : List (CallOutEntry V)}
      → Sublist xs ys
      → Between low high ys
      → Between low high xs
  Sublist-Between low high empty b = b
  Sublist-Between low high (keep x s) b = (b.0, Sublist-Between (suc x.handle) high s b.1)
  Sublist-Between low high (skip x s) b =
      Between-lower low (suc x.handle) high _ (omega (arith, b.0))
        (Sublist-Between (suc x.handle) high s b.1)

  Between-append :
      (low high : ℕ) (es : List (CallOutEntry V)) (e : CallOutEntry V)
      → e.handle ≡ high
      → Between low high es
      → Between low (high + 1) (es ++ e ∷ [])
  Between-append low high [] e h b = (omega arith, omega arith)
  Between-append low high (x ∷ es) e h b = (b.0, Between-append (suc x.handle) high es e h b.1)

  pub add_call_out-IsOrdered :
      (e : CallOutEntry V) (s : Scheduler V) → IsOrdered s → IsOrdered (add_call_out e s).1
  unfolding add_call_out
  add_call_out-IsOrdered e s h = Between-append 1 s.next_handle s.call_outs _ refl h

  -- Below the handles of a list nothing is found.
  find_first-low :
      (now low high k : ℕ) (es : List (CallOutEntry V))
      → Between low high es
      → k < low
      → find_first (has_handle (pos k)) now es ≡ negsuc 0
  unfolding find_first has_handle
  find_first-low now low high k [] b h = refl
  find_first-low now low high k (e ∷ es) b h =
      ground (arith, find_first-low now (suc e.handle) high k es b.1 (omega (arith, b.0)), b.0)

  find_first-append :
      (now k : ℕ) (es : List (CallOutEntry V)) (e : CallOutEntry V)
      → k ≢ e.handle
      → find_first (has_handle (pos k)) now (es ++ e ∷ []) ≡ find_first (has_handle (pos k)) now es
  unfolding find_first has_handle
  find_first-append now k [] e h = ground arith
  find_first-append now k (x ∷ es) e h = ground (arith, find_first-append now k es e h)

  find_first-last :
      (now low high : ℕ) (es : List (CallOutEntry V)) (e : CallOutEntry V)
      → Between low high es
      → e.handle ≡ high
      → (find_first (has_handle (pos high)) now (es ++ e ∷ [])
          ≡ pos (remaining_seconds now e.due_at))
        × (find_first (has_handle (pos high)) now es ≡ negsuc 0)
        × (low ≤ high)
  unfolding find_first has_handle
  find_first-last now low high [] e b h = ground arith
  find_first-last now low high (x ∷ es) e b h =
      ground (arith, find_first-last now (suc x.handle) high es e b.1 h, b.0)

  -- With ordered handles: the call_out added gets a handle under which nothing was pending; the
  -- seconds until it is due are found under that handle; what is found under another handle `k` is
  -- not affected; and the handles are ordered again.
  pub add_call_out-find :
      (now k : ℕ) (e : CallOutEntry V) (s : Scheduler V)
      → IsOrdered s
      → k ≢ (add_call_out e s).0
      → let (handle, t) = add_call_out e s in
        (find_call_out_by_handle now (pos handle) s ≡ negsuc 0)
        × (find_call_out_by_handle now (pos handle) t ≡ pos (remaining_seconds now e.due_at))
        × (find_call_out_by_handle now (pos k) t ≡ find_call_out_by_handle now (pos k) s)
        × IsOrdered t
  unfolding add_call_out new_call_out_handle find_call_out_by_handle
  add_call_out-find now k e s h n =
      let added = record e { handle = s.next_handle } in
      let found = find_first-last now 1 s.next_handle s.call_outs added h refl in
      (found.1, found.0, find_first-append now k s.call_outs added n, add_call_out-IsOrdered e s h)

  remove_first-handle :
      (now low high k : ℕ) (es : List (CallOutEntry V))
      → Between low high es
      → let (remaining, left) = remove_first (has_handle (pos k)) now es in
        (remaining ≡ find_first (has_handle (pos k)) now es)
        × (find_first (has_handle (pos k)) now left ≡ negsuc 0)
  unfolding remove_first find_first has_handle
  remove_first-handle now low high k [] b = (refl, refl)
  remove_first-handle now low high k (e ∷ es) b = elim (Bool-cases (e.handle == k)) [
    | inl h ↦
        rw h
          (refl, find_first-low now (suc e.handle) high k es b.1 (omega (arith, (==_iff _ _).0 h)))
    | inr h ↦
        let rest = remove_first-handle now (suc e.handle) high k es b.1 in
        rw h (rest.0, rw h rest.1)
  ]

  remove_first-other :
      (now j k : ℕ) (es : List (CallOutEntry V))
      → j ≢ k
      → find_first (has_handle (pos j)) now (remove_first (has_handle (pos k)) now es).1
        ≡ find_first (has_handle (pos j)) now es
  unfolding remove_first find_first has_handle
  remove_first-other now j k [] n = refl
  remove_first-other now j k (e ∷ es) n = ground (arith, remove_first-other now j k es n)

  -- With ordered handles, a removal by handle returns what a search would have; nothing is found
  -- under the handle any more, a second removal returns -1, and what is found under another handle
  -- `j` is not affected.
  pub remove_call_out_by_handle-find :
      (now j k : ℕ) (s : Scheduler V)
      → IsOrdered s
      → j ≢ k
      → let (remaining, t) = remove_call_out_by_handle now (pos k) s in
        (remaining ≡ find_call_out_by_handle now (pos k) s)
        × (find_call_out_by_handle now (pos k) t ≡ negsuc 0)
        × ((remove_call_out_by_handle now (pos k) t).0 ≡ negsuc 0)
        × (find_call_out_by_handle now (pos j) t ≡ find_call_out_by_handle now (pos j) s)
        × IsOrdered t
  unfolding remove_call_out_by_handle find_call_out_by_handle
  remove_call_out_by_handle-find now j k s h n =
      let left = remove_first-Sublist (has_handle (pos k)) now s.call_outs in
      let ordered = Sublist-Between 1 s.next_handle left h in
      let once = remove_first-handle now 1 s.next_handle k s.call_outs h in
      let twice = remove_first-handle now 1 s.next_handle k _ ordered in
      (once.0, once.1, twice.0 ∙ once.1, remove_first-other now j k s.call_outs n, ordered)
