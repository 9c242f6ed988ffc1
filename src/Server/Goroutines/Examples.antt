-- ===== src/Server/Goroutines/Examples.antt =====
-- A connection that breaks, and one that says nothing.
use rtio.Prelude.{◌≡◌, ◌≢◌, ◌≤◌, ◌⊎◌, refl, inl, true, false, some, List, [], ◌∷◌, ◌++◌, arith}
use rtio.Server.Goroutines.{
  looping, sending, ended, on_timeout, selecting, timed_out, returned, Conn, new_conn, Action,
  incomming_fails, incomming_sends, outgoing_fails, outgoing_sends, timer_fires, timeout_sends,
  cancelled, frame_put, step, run,
}
use rtio.Server.Goroutines.Room.{IsTimed, err_chan_has_room}
use rtio.Server.Goroutines.Ending.{EndsOrWaits, all_end}
use rtio.Server.Goroutines.Stranding.{timeout_waits_forever, timeout_strands_outgoing}

-- The read of the incoming loop and the write of the outgoing one fail.
abbrev breaking : List Action
breaking = incomming_fails ∷ frame_put ∷ outgoing_fails ∷ incomming_sends ∷ []

abbrev broken : Conn
broken = record new_conn { errs = 1; incomming = ended; outgoing = sending }

broken_reached : run breaking new_conn ≡ some broken
unfolding step
broken_reached = refl

err_chan_has_room_example :
    (broken.errs ≤ 2)
    × (IsTimed broken.serving
        ⊎ (((broken.incomming ≢ sending) ⊎ ((d : Conn) × (step incomming_sends broken ≡ some d)))
            × ((broken.outgoing ≢ sending) ⊎ ((d : Conn) × (step outgoing_sends broken ≡ some d)))))
err_chan_has_room_example = err_chan_has_room breaking broken broken_reached

all_end_example :
    (more : List Action) × (d : Conn) × (run more broken ≡ some d)
    × (d.serving ≢ selecting)
    × (d.closed ≡ true)
    × (d.outgoing ≡ ended)
    × EndsOrWaits d.incomming d.queue
all_end_example = all_end breaking broken broken_reached tt (inl (omega arith))

-- The outgoing loop sends its error, before serve has received the first.
abbrev both_failed : Conn
both_failed = record new_conn { errs = 2; incomming = ended; outgoing = ended }

both_failed_reached : run (breaking ++ (outgoing_sends ∷ [])) new_conn ≡ some both_failed
unfolding step
both_failed_reached = refl

abbrev stuck_after : Conn
stuck_after = record both_failed { ctx_done = true; queue = 1; serving = timed_out }

stuck_runs : run (timer_fires ∷ cancelled ∷ frame_put ∷ []) both_failed ≡ some stuck_after
unfolding step
stuck_runs = refl

timeout_waits_forever_example :
    (stuck_after.serving ≡ timed_out)
    × (stuck_after.errs ≡ 2)
    × (stuck_after.closed ≡ both_failed.closed)
timeout_waits_forever_example =
    timeout_waits_forever (cancelled ∷ frame_put ∷ []) both_failed stuck_after refl refl stuck_runs

-- A device that connects and says nothing.
abbrev silent : Conn
silent = record new_conn {
  errs = 2;
  closed = true;
  incomming = ended;
  serving = returned on_timeout;
}

silent_reached :
    run (timer_fires ∷ timeout_sends ∷ incomming_fails ∷ incomming_sends ∷ []) new_conn
    ≡ some silent
unfolding step
silent_reached = refl

timeout_strands_outgoing_example :
    (silent.serving ≡ returned on_timeout) × (silent.ctx_done ≡ false) × (silent.outgoing ≡ looping)
timeout_strands_outgoing_example =
    timeout_strands_outgoing (incomming_fails ∷ incomming_sends ∷ []) new_conn silent refl refl refl
      refl (tt, (tt, tt)) silent_reached
