-- ===== src/Builder/Runs.antt =====
-- A word that is put together by the object, checked and turned into code, and a run of that code.
use tails.StackEffect.{StackEffect}
use tails.Value.{Value}
use tails.Checker.{Checker}
use tails.Builder.{Builder}
