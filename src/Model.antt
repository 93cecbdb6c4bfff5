-- ===== src/Model.antt =====
-- include/mc/model.hpp, src/models/gbm.cpp and src/models/heston.cpp: the kernels that turn a
-- scenario into a discounted payoff, and the choice between them.
pub mod Path
pub mod Gbm
pub mod Heston
pub mod Dispatch
