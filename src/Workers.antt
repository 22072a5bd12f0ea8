-- ===== src/Workers.antt =====
-- fake_worker.py and gpu_worker.py: the workers that run the jobs of the store.
pub mod Completion
pub mod Fake
pub mod Envelope
pub mod Clamping
pub mod Gpu
pub mod Steps
pub mod Registration
pub mod Ends
pub mod Results
