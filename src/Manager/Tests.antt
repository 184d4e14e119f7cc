-- ===== src/Manager/Tests.antt =====
-- A manager that holds the master segment, with objects that never throw.
use master_team_projekt.Prelude.{ℕ, ◌*◌, List, [], ◌∷◌, none, some, false}
use master_team_projekt.Tuples.Catalogue.{segment_tuple}
use master_team_projekt.Manager.{Objects, Manager, add_tuple}

abbrev W : Type 0
W = Unit {0}

-- The first index page of a segment is ten times its id.
abbrev steady : Objects W
steady = record {
  create = λ id partition w. some (id * 10, w);
  load = λ t w. some w;
  erase = λ id w. some w;
  insert = λ id t w. some w;
  remove = λ id i w. some w;
}

abbrev empty : Manager W
empty = record {
  counter = 1;
  segments = λ i. false;
  by_id = λ i. none;
  by_name = λ s. none;
  world = tt;
}

abbrev master : List ℕ
master = 77 ∷ []

abbrev with_master : Manager W
with_master = add_tuple (segment_tuple 0 1 master 2 10) (record empty { counter = 2 })
