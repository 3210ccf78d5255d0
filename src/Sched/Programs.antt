-- ===== src/Sched/Programs.antt =====
-- The programs of the simulated processes: the tables of OS_Threaded_Scheduling/src/process.c.
use ece.Prelude.{ℕ, none, List, [], ◌∷◌, ◌==◌, if◌then◌else◌}
use Prim.Native.String.{String}
use ece.Sched.Types.{ProcessState, OpType, Op, Pcb}

-- A table alternates bursts of computing with requests for I/O, and ends by a termination.
unfoldable pub compute : ℕ → List Op → List Op
compute t rest = record { kind = OpType.cpu; time = t } ∷ rest

unfoldable pub request : ℕ → List Op → List Op
request t rest = record { kind = OpType.io; time = t } ∷ rest

unfoldable pub finish : List Op
finish = record { kind = OpType.terminate; time = 0 } ∷ []

unfoldable pub pid0_ops : List Op
unfolding compute request finish
pid0_ops = compute 2 (
    request 2 (
      compute 3 (
        request 5 (
          compute 1 (
            request 4 (
              compute 2 (
                request 2 (
                  compute 3 (
                    request 5 (
                      compute 1 (
                        request 4 (
                          compute 2 (
                            request 2 (
                              compute 3 (
                                request 5 (
                                  compute 1 (
                                    request 4 (
                                      compute 2 (
                                        request 5 (
                                          compute 1 (
                                            request 4 (
                                              compute 2 (
                                                request 2 (
                                                  compute 3 (
                                                    request 5 (
                                                      compute 1 (
                                                        request 4 (
                                                          compute 2
                                                            finish))))))))))))))))))))))))))))

unfoldable pub pid1_ops : List Op
unfolding compute request finish
pid1_ops = compute 3 (
    request 4 (
      compute 2 (
        request 6 (
          compute 1 (
            request 3 (
              compute 4 (
                request 4 (
                  compute 2 (
                    request 6 (
                      compute 1 (
                        request 3 (
                          compute 4 (
                            request 4 (
                              compute 2 (
                                request 6 (
                                  compute 1 (
                                    request 3 (
                                      compute 4 (
                                        request 3 (
                                          compute 4 (
                                            request 4 (
                                              compute 2 (
                                                request 6 (
                                                  compute 1 (
                                                    request 3
                                                      (compute 4 finish))))))))))))))))))))))))))

unfoldable pub pid2_ops : List Op
unfolding compute request finish
pid2_ops = compute 1 (
    request 4 (
      compute 2 (
        request 5 (
          compute 1 (
            request 3 (
              compute 3 (
                request 4 (
                  compute 2 (
                    request 5 (
                      compute 1 (
                        request 3 (
                          compute 3 (
                            request 4 (
                              compute 2 (
                                request 5 (
                                  compute 1 (
                                    request 3 (
                                      compute 3 (
                                        request 4 (
                                          compute 2 (
                                            request 5 (
                                              compute 1
                                                (request 3 (compute 3 finish))))))))))))))))))))))))

unfoldable pub pid3_ops : List Op
unfolding compute request finish
pid3_ops = compute 9 (
    request 1 (
      compute 6 (
        request 1 (
          compute 8 (
            request 1 (
              compute 7 (
                request 1 (
                  compute 6 (
                    request 1 (
                      compute 8 (
                        request 1 (
                          compute 7 (
                            request 1 (
                              compute 6
                                (request 1 (compute 8 (request 1 (compute 8 finish))))))))))))))))))

unfoldable pub pid4_ops : List Op
unfolding compute request finish
pid4_ops = compute 10 (
    request 1 (
      compute 14 (
        request 1 (
          compute 7 (
            request 2 (
              compute 11 (
                request 1 (
                  compute 14 (
                    request 1 (
                      compute 7 (
                        request 2 (
                          compute 11 (
                            request 1 (
                              compute 14 (
                                request 1 (compute 7 (request 2 (compute 11 finish))))))))))))))))))

unfoldable pub pid5_ops : List Op
unfolding compute request finish
pid5_ops = compute 9 (
    request 1 (
      compute 10 (
        request 2 (
          compute 15 (
            request 1 (
              compute 8 (
                request 1 (
                  compute 10 (
                    request 2 (
                      compute 15 (
                        request 1 (
                          compute 8 (
                            request 1 (
                              compute 10 (
                                request 2 (compute 15 (request 1 (compute 8 finish))))))))))))))))))

unfoldable pub pid6_ops : List Op
unfolding compute request finish
pid6_ops = compute 6 (
    request 3 (
      compute 9 (
        request 1 (
          compute 14 (
            request 1 (
              compute 11 (
                request 3 (
                  compute 9 (
                    request 1 (
                      compute 14 (
                        request 1 (
                          compute 11 (
                            request 3 (
                              compute 9 (
                                request 1
                                  (compute 14 (request 1 (compute 11 finish))))))))))))))))))

unfoldable pub pid7_ops : List Op
unfolding compute request finish
pid7_ops = compute 6 (
    request 3 (
      compute 12 (
        request 3 (
          compute 7 (
            request 1 (
              compute 9 (
                request 3 (
                  compute 12 (
                    request 3 (
                      compute 7 (
                        request 1 (
                          compute 9 (
                            request 3 (
                              compute 12
                                (request 3 (compute 7 (request 1 (compute 9 finish))))))))))))))))))

abbrev new_process : ℕ → String → ℕ → List Op → Pcb
new_process pid name time ops = record {
  pid = pid;
  name = name;
  time_remaining = time;
  state = ProcessState.new;
  pc = ops;
  next = none;
}

-- Past the end of the table stands an entry that no code reaches.
unfoldable pub processes : ℕ → Pcb
processes i =
    if i == 0
    then new_process 0 "Iapache" 2 pid0_ops
    else if i == 1
    then new_process 1 "Ibash" 3 pid1_ops
    else if i == 2
    then new_process 2 "Imozilla" 1 pid2_ops
    else if i == 3
    then new_process 3 "Ccpu" 9 pid3_ops
    else if i == 4
    then new_process 4 "Cgcc" 10 pid4_ops
    else if i == 5
    then new_process 5 "Cspice" 9 pid5_ops
    else if i == 6
    then new_process 6 "Cmysql" 6 pid6_ops
    else if i == 7
    then new_process 7 "Csim" 6 pid7_ops
    else new_process i "" 0 []
