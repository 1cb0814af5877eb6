-- ===== src/Device/Windows/Loops.antt =====
-- The waiting loops of the Windows device.
use net_hive.Device.Windows.{
  WinError, no_more_files, buffer_overflow, handle_eof, closed, tun_read, tun_write,
}
use net_hive.Device.Copy.{copy, length-copy, take-copy}
use net_hive.Prelude.{
  ℕ, zero, suc, ◌≤◌, ◌≡◌, refl, sym, ap, ◌∙◌, none, some, List, [], ◌∷◌, ◌++◌, arith, Bytes, length,
  take, replicate, Result, ok, err,
}

take_all : (xs : Bytes) → take (length xs) xs ≡ xs
take_all [] = refl
take_all (x ∷ xs) = ap (λ ys. x ∷ ys) (take_all xs)

-- However often `Read` finds the ring empty, it then takes the first packet: it returns its size,
-- and the buffer, as long as before, starts with the packet if that fits into it. With nothing but
-- an empty ring it goes on waiting.
pub tun_read_lem :
    (n : ℕ) (buff packet : Bytes) (rest : List (Result WinError Bytes))
    → (tun_read buff (replicate n (err no_more_files)) ≡ none)
      × (tun_read buff (replicate n (err no_more_files) ++ ok packet ∷ rest)
          ≡ some (ok (length packet), copy buff packet))
      × (length (copy buff packet) ≡ length buff)
      × (length packet ≤ length buff → take (length packet) (copy buff packet) ≡ packet)
unfolding tun_read
tun_read_lem zero buff packet rest = (refl, refl, length-copy buff packet, take-copy buff packet)
tun_read_lem (suc n) buff packet rest = tun_read_lem n buff packet rest

-- However often `Write` finds the ring full, it then sends the first packet that it is given, with
-- exactly the bytes of its buffer if the packet has their size; and if the session has ended it
-- returns `os.ErrClosed` and sends nothing.
pub tun_write_lem :
    (n : ℕ) (buff packet : Bytes) (rest : List (Result WinError Bytes))
    → length packet ≡ length buff
    → (tun_write buff (replicate n (err buffer_overflow)) ≡ none)
      × (tun_write buff (replicate n (err buffer_overflow) ++ ok packet ∷ rest)
          ≡ some (ok (length buff), some buff))
      × (tun_write buff (replicate n (err buffer_overflow) ++ err handle_eof ∷ rest)
          ≡ some (err closed, none))
unfolding tun_write
tun_write_lem zero buff packet rest h =
    let same : copy packet buff ≡ buff =
      sym (take_all (copy packet buff))
      ∙ ap (λ k. take k (copy packet buff)) (length-copy packet buff ∙ h)
      ∙ take-copy packet buff (omega (arith, h)) in
    (refl, ap (λ b. some (ok (length buff), some b)) same, refl)
tun_write_lem (suc n) buff packet rest h = tun_write_lem n buff packet rest h
