-- ===== src/Examples/Whole.antt =====
-- Runs of the talker, the listener and `main` as a whole.
use tram.Prelude.{◌*◌, arith, false, [], ◌∷◌, refl, pos, some}
use tram.Sys.{poll}
use tram.Terminal.{after_setup}
use tram.Sys.Outcomes.{Gives, Returns}
use tram.Sys.Conclusion.{Concluded}
use tram.Socket.{create_talker_socket}
use tram.Avtp.Toy.{toy}
use tram.Listener.{loop}
use tram.Listener.Due.{Due}
use tram.Listener.Punctual.{loop-Due}
use tram.Listener.Loop.{initial}
use tram.Listener.View.{view, queue_after, Runs}
use tram.Listener.Refines.{loop-Reach}
use tram.Listener.Numbering.{Tallied}
use tram.Listener.Drops.{loop-Tallied}
use tram.Session.{open_all, avb_aaf_listener}
use tram.Session.Opened.{Opened, open_all-Opened}
use tram.Session.Whole.{NotOpened, avb_aaf_listener-Concluded}
use tram.Talker.{avb_aaf_talker}
use tram.Talker.Whole.{NoSocket, avb_aaf_talker-Concluded}
use tram.Cli.{main}
use tram.Cli.Whole.{Returned, main-Returned}
use tram.Cli.Stops.{Answers, main-Answers}
use tram.Examples.Data.{
  counting, counting-HandsOutFresh, stream, radio, radio-escape, radio-HonestTimer, floats, fds,
}
use tram.Examples.Lossy.{lossy, lossy-Healthy, lossy-HonestTimer, lossy-Arrives, numbered_packet}
use tram.Examples.Devices.{formats}
use tram.Examples.Options.{scan, six_channels}

avb_aaf_talker-Concluded_example :
    Concluded counting []
      (NoSocket (create_talker_socket counting (pos 2) (after_setup counting [])))
      (avb_aaf_talker counting toy floats formats 2 [] [] (pos 2) stream [] [] [])
avb_aaf_talker-Concluded_example =
    avb_aaf_talker-Concluded counting counting-HandsOutFresh toy floats formats 2 [] [] (pos 2)
      stream [] [] []

avb_aaf_listener-Concluded_example :
    Concluded counting []
      (NotOpened (open_all counting [] (after_setup counting [])))
      (avb_aaf_listener counting toy floats formats 2 [] stream [] (pos 9) (97 ∷ []) [])
avb_aaf_listener-Concluded_example =
    avb_aaf_listener-Concluded counting toy floats formats 2 [] stream [] (pos 9) (97 ∷ []) []
      counting-HandsOutFresh

open_all-Opened_example : Returns (Opened counting []) (open_all counting [] [])
open_all-Opened_example = open_all-Opened counting counting-HandsOutFresh [] []

main-Answers_example : Answers (main radio toy floats formats scan 2 [] six_channels [])
main-Answers_example =
    main-Answers radio 2 radio-escape 1 toy floats formats scan [] six_channels [] refl

loop-Reach_example :
    Runs radio toy stream
      (view radio [] [])
      queue_after
      (loop radio toy fds stream false 3 initial [])
loop-Reach_example = loop-Reach radio toy fds stream false 3 initial []

loop-Tallied_example :
    Returns
      (Tallied lossy stream (λ m. 2 * m) (λ m. some (numbered_packet m)))
      (loop lossy toy fds stream false 3 initial [])
loop-Tallied_example =
    loop-Tallied (λ m. 2 * m) (λ m. omega arith) (λ m. omega arith) (λ m. some (numbered_packet m))
      lossy lossy-Healthy toy fds stream false
      (λ t ready. lossy-Arrives (poll fds.sk_fd fds.timer_fd fds.session_tim_fd ∷ t)) 4
      lossy-HonestTimer refl 3 [] refl refl refl

loop-Due_example : Returns (Due radio 4) (loop radio toy fds stream false 3 initial [])
loop-Due_example =
    loop-Due radio 4 fds refl stream false toy (λ u. refl) radio-HonestTimer 3 [] refl

main-Returned_example :
    Gives (Returned counting []) (main counting toy floats formats scan 2 [] six_channels [])
main-Returned_example =
    main-Returned counting counting-HandsOutFresh toy floats formats 2 [] [] scan six_channels
