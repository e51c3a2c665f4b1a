-- ===== src/User/RwLock/Exclusion.antt =====
-- Who is inside a readers/writer lock, and what its calls come to.
use p.Base.{
  ℕ, zero, suc, ◌+◌, ◌^◌, ◌<◌, ◌≡◌, refl, sym, ap, ◌∙◌, ◌⊎◌, inl, inr, arith, Option, none, some,
}
use p.User.RwLock.{
  ◌>>=◌, RwLock, LockType, read, write, History, start, read_in, write_in, read_out, write_out,
  downgrade, rwlock_init, rwlock_lock, rwlock_unlock, rwlock_downgrade,
}
use p.User.RwLock.Phases.{
  reading, writing, stuck, read-reading, unlock-reading, write-reading, write-free, lock-writing,
  unlock-writing, downgrade-writing, lock-stuck,
}

data Phase (l : RwLock) (rs ws : ℕ) : Type 0 where
  in_reading : ws ≡ 0 → rs < 2 ^ 31 → l ≡ reading rs → Phase l rs ws
  in_writing : ws ≡ 1 → rs ≡ 0 → l ≡ writing → Phase l rs ws
  in_stuck : ws ≡ 0 → rs ≡ 0 → l ≡ stuck → Phase l rs ws

some-injective : {a b : RwLock} → some a ≡ some b → a ≡ b
some-injective e = cc

-- A call that comes to two results has come to one.
same : (call : Option RwLock) (a b : RwLock) → call ≡ some a → call ≡ some b → b ≡ a
same call a b e f = some-injective (sym f ∙ e)

blocked : {P : Type 0} (call : Option RwLock) (b : RwLock) → call ≡ none → call ≡ some b → P
blocked call b e f = absurd (cc)

read_in-Phase :
    (l l' : RwLock) (rs ws : ℕ)
    → Phase l rs ws
    → rs + 1 < 2 ^ 31
    → rwlock_lock read l ≡ some l'
    → Phase l' (rs + 1) ws
read_in-Phase l l' rs ws (in_reading w r e) small f =
    in_reading w small (
      same (rwlock_lock read (reading rs)) (reading (rs + 1)) l' (read-reading rs small)
        (rw e at f))
read_in-Phase l l' rs ws (in_writing w r e) small f =
    blocked (rwlock_lock read writing) l' (lock-writing read) (rw e at f)
read_in-Phase l l' rs ws (in_stuck w r e) small f =
    blocked (rwlock_lock read stuck) l' (lock-stuck read) (rw e at f)

write_in-Phase :
    (l l' : RwLock) (rs ws : ℕ)
    → Phase l rs ws
    → rwlock_lock write l ≡ some l'
    → Phase l' rs (ws + 1)
write_in-Phase l l' zero ws (in_reading w r e) f =
    in_writing (omega arith) refl
      (same (rwlock_lock write (reading 0)) writing l' write-free (rw e at f))
write_in-Phase l l' (suc rs) ws (in_reading w r e) f =
    blocked (rwlock_lock write (reading (suc rs))) l' (write-reading (suc rs) (omega arith))
      (rw e at f)
write_in-Phase l l' rs ws (in_writing w r e) f =
    blocked (rwlock_lock write writing) l' (lock-writing write) (rw e at f)
write_in-Phase l l' rs ws (in_stuck w r e) f =
    blocked (rwlock_lock write stuck) l' (lock-stuck write) (rw e at f)

read_out-Phase :
    (l l' : RwLock) (rs ws : ℕ) → Phase l (rs + 1) ws → rwlock_unlock l ≡ some l' → Phase l' rs ws
read_out-Phase l l' rs ws (in_reading w r e) f =
    in_reading w (omega arith)
      (same (rwlock_unlock (reading (rs + 1))) (reading rs) l' (unlock-reading rs r) (rw e at f))
read_out-Phase l l' rs ws (in_writing w r e) f = absurd (omega arith)
read_out-Phase l l' rs ws (in_stuck w r e) f = absurd (omega arith)

write_out-Phase :
    (l l' : RwLock) (rs ws : ℕ) → Phase l rs (ws + 1) → rwlock_unlock l ≡ some l' → Phase l' rs ws
write_out-Phase l l' rs ws (in_reading w r e) f = absurd (omega arith)
write_out-Phase l l' rs ws (in_writing w r e) f =
    in_stuck (omega arith) r (same (rwlock_unlock writing) stuck l' unlock-writing (rw e at f))
write_out-Phase l l' rs ws (in_stuck w r e) f = absurd (omega arith)

downgrade-Phase :
    (l l' : RwLock) (rs ws : ℕ)
    → Phase l rs (ws + 1)
    → rwlock_downgrade l ≡ some l'
    → Phase l' (rs + 1) ws
downgrade-Phase l l' rs ws (in_reading w r e) f = absurd (omega arith)
downgrade-Phase l l' rs ws (in_writing w r e) f = in_reading (omega arith) (omega arith) (
    same (rwlock_downgrade writing) (reading 1) l' downgrade-writing (rw e at f)
    ∙ ap (λ n. reading (n + 1)) (sym r))
downgrade-Phase l l' rs ws (in_stuck w r e) f = absurd (omega arith)

History-Phase : {l : RwLock} {rs ws : ℕ} → History l rs ws → Phase l rs ws
unfolding rwlock_init
History-Phase (start l) = in_reading refl (omega arith) refl
History-Phase (read_in {l} {l'} {rs} {ws} h small e) =
    read_in-Phase l l' rs ws (History-Phase h) small e
History-Phase (write_in {l} {l'} {rs} {ws} h e) = write_in-Phase l l' rs ws (History-Phase h) e
History-Phase (read_out {l} {l'} {rs} {ws} h e) = read_out-Phase l l' rs ws (History-Phase h) e
History-Phase (write_out {l} {l'} {rs} {ws} h e) = write_out-Phase l l' rs ws (History-Phase h) e
History-Phase (downgrade {l} {l'} {rs} {ws} h e) = downgrade-Phase l l' rs ws (History-Phase h) e

-- After rwlock_init and any lock, unlock and downgrade calls that came back, one after the
-- other, each unlock and downgrade by a thread that is inside and with fewer than 2 ^ 31
-- readers: no writer is inside, or one is, and no reader.
pub writer_excludes : (l : RwLock) (rs ws : ℕ) → History l rs ws → (ws ≡ 0) ⊎ ((ws ≡ 1) × (rs ≡ 0))
writer_excludes l rs ws h = elim (History-Phase h) [
  | in_reading w r e ↦ inl w
  | in_writing w r e ↦ inr (w, r)
  | in_stuck w r e ↦ inl w
]

-- After rwlock_init and any lock, unlock and downgrade calls that came back, one after the
-- other, with one writer and no reader inside: the writer's rwlock_unlock comes back, and then
-- every rwlock_lock, for reading or for writing, blocks.
pub left_by_writer :
    (l : RwLock) (t : LockType)
    → History l 0 1
    → (l' : RwLock) × (rwlock_unlock l ≡ some l') × (rwlock_lock t l' ≡ none)
left_by_writer l t h = elim (History-Phase h) [
  | in_reading w r e ↦ absurd (omega arith)
  | in_writing w r e ↦ (stuck, rw e unlock-writing, lock-stuck t)
  | in_stuck w r e ↦ absurd (omega arith)
]

-- After rwlock_init and any lock, unlock and downgrade calls that came back, one after the
-- other, with one writer and no reader inside: rwlock_downgrade and then rwlock_unlock come
-- back and leave the lock as rwlock_init does.
pub downgrade-unlock :
    (l : RwLock) → History l 0 1 → (rwlock_downgrade l >>= rwlock_unlock) ≡ some (rwlock_init l)
unfolding rwlock_init
downgrade-unlock l h = elim (History-Phase h) [
  | in_reading w r e ↦ absurd (omega arith)
  | in_writing w r e ↦ rw (e, downgrade-writing) (unlock-reading 0 (omega arith))
  | in_stuck w r e ↦ absurd (omega arith)
]
