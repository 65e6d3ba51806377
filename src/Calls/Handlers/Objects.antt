-- ===== src/Calls/Handlers/Objects.antt =====
-- proxy/protocol/gles2.c: the handlers of textures, buffers, shaders and programs.
use webos_bridge_64to.Common.{[], ◌∷◌}
use webos_bridge_64to.Calls.Args.{Handler, u32, i32, in_call, in_locals}
use webos_bridge_64to.Calls.Api

unfoldable pub h_gl_active_texture : Handler
h_gl_active_texture = in_locals (u32 ∷ []) Api.gl_active_texture

unfoldable pub h_gl_bind_texture : Handler
h_gl_bind_texture = in_locals (u32 ∷ u32 ∷ []) Api.gl_bind_texture

unfoldable pub h_gl_copy_tex_image_2d : Handler
h_gl_copy_tex_image_2d =
    in_locals (u32 ∷ i32 ∷ u32 ∷ i32 ∷ i32 ∷ i32 ∷ i32 ∷ i32 ∷ []) Api.gl_copy_tex_image_2d

unfoldable pub h_gl_copy_tex_sub_image_2d : Handler
h_gl_copy_tex_sub_image_2d =
    in_locals (u32 ∷ i32 ∷ i32 ∷ i32 ∷ i32 ∷ i32 ∷ i32 ∷ i32 ∷ []) Api.gl_copy_tex_sub_image_2d

unfoldable pub h_gl_generate_mipmap : Handler
h_gl_generate_mipmap = in_call (u32 ∷ []) Api.gl_generate_mipmap

unfoldable pub h_gl_pixel_storei : Handler
h_gl_pixel_storei = in_locals (u32 ∷ i32 ∷ []) Api.gl_pixel_storei

unfoldable pub h_gl_bind_renderbuffer : Handler
h_gl_bind_renderbuffer = in_locals (u32 ∷ u32 ∷ []) Api.gl_bind_renderbuffer

unfoldable pub h_gl_renderbuffer_storage : Handler
h_gl_renderbuffer_storage = in_locals (u32 ∷ u32 ∷ i32 ∷ i32 ∷ []) Api.gl_renderbuffer_storage

unfoldable pub h_gl_delete_shader : Handler
h_gl_delete_shader = in_call (u32 ∷ []) Api.gl_delete_shader

unfoldable pub h_gl_compile_shader : Handler
h_gl_compile_shader = in_locals (u32 ∷ []) Api.gl_compile_shader

unfoldable pub h_gl_release_shader_compiler : Handler
h_gl_release_shader_compiler = in_call ([]) Api.gl_release_shader_compiler

unfoldable pub h_gl_delete_program : Handler
h_gl_delete_program = in_call (u32 ∷ []) Api.gl_delete_program

unfoldable pub h_gl_attach_shader : Handler
h_gl_attach_shader = in_call (u32 ∷ u32 ∷ []) Api.gl_attach_shader

unfoldable pub h_gl_detach_shader : Handler
h_gl_detach_shader = in_call (u32 ∷ u32 ∷ []) Api.gl_detach_shader

unfoldable pub h_gl_link_program : Handler
h_gl_link_program = in_locals (u32 ∷ []) Api.gl_link_program

unfoldable pub h_gl_use_program : Handler
h_gl_use_program = in_locals (u32 ∷ []) Api.gl_use_program

unfoldable pub h_gl_validate_program : Handler
h_gl_validate_program = in_call (u32 ∷ []) Api.gl_validate_program
